-- ===== src/Database/Answers.antt =====
-- Each handler of Database/database.cpp that takes a request answers it once, on each of its branches.
pub mod Every
use tycho_sipwitchqt.Prelude.{
  ℕ, suc, ◌+◌, String, ◌==◌, Bool, true, false, not, ◌&&◌, ◌||◌, Option, none, some, List, [], ◌∷◌,
  ◌++◌, ◌≡◌, ◌∙◌, inl, inr, refl, arith, if◌then◌else◌, either, map, keep, Option-cases, Bool-cases,
}
use tycho_sipwitchqt.Prelude.Int.{ℤ, pos, eqb_ℤ, ltb_ℤ}
use tycho_sipwitchqt.Sip.{Event}
use tycho_sipwitchqt.Database.Tables.{
  Db, Tables, EndpointRow, ExtensionRow, AuthorizeRow, select, select_one, run, is_empty,
}
use tycho_sipwitchqt.Database.Outbox.{Qt, Posted, Posting, post_all, post_admin, admin_message}
use tycho_sipwitchqt.Database.Accounts.{Config, exists, is_refused, out_of_range, account_of}
use tycho_sipwitchqt.Database.Profile.{
  Profile, Sent, replied, answered_profile, disconnect_endpoint, update_roster, posted, Change,
  change_of, replaces_secret, write_change, write_profile, change_profile, show_profile,
  send_profile, target_of,
}
use tycho_sipwitchqt.Database.Admin.{
  add_extension, authorize_new, authorize_old, change_authorize, with_account, forward, forward_to,
  forward_account, change_forwarding, cover_account, change_coverage, header, disconnect_all,
}
use tycho_sipwitchqt.Database.Groups.{
  notify_all, private_topic, group_topic, topic_account, change_topic, profile_and_disconnect,
  drop_account, drop_extension, set_suspend, admin_account, change_admin, change_members,
  membership_account, change_membership, remove_labelled, remove_device,
}

-- The answers among what the handlers of messages send.
abbrev pub posted_answers : List Posted → ℕ
posted_answers [] = 0
posted_answers (Posted.replied code ∷ out) = suc (posted_answers out)
posted_answers (Posted.answered rows ∷ out) = suc (posted_answers out)
posted_answers (Posted.send_message e data_ ∷ out) = posted_answers out

abbrev pub answers : List Sent → ℕ
answers [] = 0
answers (replied code ∷ out) = suc (answers out)
answers (answered_profile p ∷ out) = suc (answers out)
answers (disconnect_endpoint e ∷ out) = answers out
answers (update_roster ∷ out) = answers out
answers (posted messages ∷ out) = posted_answers messages + answers out

-- Among all that is sent, one answer.
abbrev pub Once : Db × List Sent → Type 0
Once x = answers x.1 ≡ 1

pub answers-append : (xs ys : List Sent) → answers (xs ++ ys) ≡ answers xs + answers ys
answers-append [] ys = omega arith
answers-append (replied code ∷ xs) ys = ground (arith, answers-append xs ys)
answers-append (answered_profile p ∷ xs) ys = ground (arith, answers-append xs ys)
answers-append (disconnect_endpoint e ∷ xs) ys = answers-append xs ys
answers-append (update_roster ∷ xs) ys = answers-append xs ys
answers-append (posted messages ∷ xs) ys = omega (arith, answers-append xs ys)

pub disconnect_all-answers : (rows : List EndpointRow) → answers (disconnect_all rows) ≡ 0
disconnect_all-answers [] = refl
disconnect_all-answers (row ∷ rows) = disconnect_all-answers rows

-- A message that is posted to the endpoints of a list answers nothing.
post_all-posted_answers :
    (qt : Qt) (list : List ℕ) (done : ℕ → Bool) (data_ : Posting) (d : Db)
    → posted_answers (post_all qt list done data_ d).1 ≡ 0
unfolding post_all
post_all-posted_answers qt [] done data_ d = refl
post_all-posted_answers qt (e ∷ list) done data_ d =
    either (λ (out : List Posted). posted_answers out ≡ 0) (done e) _ _
      (λ _. post_all-posted_answers qt list done data_ _)
      (λ _. post_all-posted_answers qt list done data_ _)

post_admin-posted_answers :
    (qt : Qt) (ev : Event) (to : ℤ) (text : String) (from : ℤ) (display : String) (expires : ℤ)
    (list : List ℕ) (mid : Option ℕ) (d : Db)
    → posted_answers (post_admin qt ev to text from display expires list mid d).1 ≡ 0
unfolding post_admin
post_admin-posted_answers qt ev to text from display expires list none d = refl
post_admin-posted_answers qt ev to text from display expires list (some mid) d =
    post_all-posted_answers qt list _ _ d

pub admin_message-posted_answers :
    (qt : Qt) (ev : Event) (to : ℤ) (text : String) (from : ℤ) (display : String) (expires : ℤ)
    (d : Db)
    → posted_answers (admin_message qt ev to text from display expires d).1 ≡ 0
unfolding admin_message
admin_message-posted_answers qt ev to text from display expires d =
    post_admin-posted_answers qt ev to text from display expires _ _ _

module _ (qt : Qt) (cfg : Config) (ev : Event) where
  pub notify_all-answers :
      (to : List ℤ) (text : String) (from : ℤ) (display : String) (d : Db)
      → answers (notify_all qt cfg ev to text from display d).1 ≡ 0
  unfolding notify_all
  notify_all-answers [] text from display d = refl
  notify_all-answers (to ∷ rest) text from display d =
      let d' = (admin_message qt ev to text from display (pos 0) d).0 in
      omega (
        arith,
        admin_message-posted_answers qt ev to text from display (pos 0) d,
        notify_all-answers rest text from display d',
      )

  add_extension-Once :
      (user : String) (group : Bool) (d : Db) → Once (add_extension qt cfg ev user group d)
  unfolding add_extension
  add_extension-Once user group d = ground arith

  pub change_authorize-Once : (d : Db) → Once (change_authorize qt cfg ev d)
  unfolding change_authorize authorize_new authorize_old
  change_authorize-Once d = grind (arith, add_extension-Once)

  module _ (authuser : String) (endpoint : ℕ) where
    write_change-Once :
        (e : ExtensionRow) (a : AuthorizeRow) (ch : Change) (d : Db)
        → Once (write_change qt cfg ev endpoint e a ch d)
    unfolding write_change
    write_change-Once e a ch d = ground arith

    write_profile-Once :
        (e : ExtensionRow) (a : AuthorizeRow) (ch : Option Change) (d : Db)
        → Once (write_profile qt cfg ev endpoint e a ch d)
    unfolding write_profile
    write_profile-Once e a none d = refl
    write_profile-Once e a (some ch) d = write_change-Once e a ch d

    change_profile-Once :
        (e : ExtensionRow) (a : AuthorizeRow) (prof : Profile) (d : Db)
        → Once (change_profile qt cfg ev authuser endpoint e a prof d)
    unfolding change_profile
    change_profile-Once e a prof d = grind (arith, write_profile-Once)

    show_profile-Once :
        (account : Option (ExtensionRow × AuthorizeRow)) (d : Db)
        → Once (show_profile qt cfg ev authuser endpoint account d)
    unfolding show_profile
    show_profile-Once none d = refl
    show_profile-Once (some (e, a)) d = grind (arith, change_profile-Once)

    pub send_profile-Once : (d : Db) → Once (send_profile qt cfg ev authuser endpoint d)
    unfolding send_profile
    send_profile-Once d = grind (arith, show_profile-Once)
