-- ===== src/Event/TypeName.antt =====
-- The names of eXosip's event types, as Event::toString of Server/event.cpp and Message::toStr of
-- Connect/message.cpp write them. `other_type` is any type that neither has a case for.
use tycho_sipwitchqt.Prelude.{Option, none, some, ◌∷◌, ◌++◌, ◌≡◌, ◌⊎◌, inl, inr, refl}
use tycho_sipwitchqt.UString.{Bytes, codes}

pub data ExosipType : Type 0 where
  registration_success call_invite call_reinvite call_noanswer subscription_noanswer : ExosipType
  notification_noanswer message_proceeding notification_proceeding : ExosipType
  call_message_proceeding subscription_proceeding call_proceeding call_ringing : ExosipType
  message_answered call_answered call_message_answered subscription_answered : ExosipType
  notification_answered subscription_redirected notification_redirected : ExosipType
  call_message_redirected call_redirected message_redirected registration_failure : ExosipType
  subscription_requestfailure notification_requestfailure call_requestfailure : ExosipType
  call_message_requestfailure message_requestfailure subscription_serverfailure : ExosipType
  notification_serverfailure call_serverfailure call_message_serverfailure : ExosipType
  message_serverfailure subscription_globalfailure notification_globalfailure : ExosipType
  call_globalfailure call_message_globalfailure message_globalfailure call_ack : ExosipType
  call_closed call_released call_cancelled message_new call_message_new : ExosipType
  in_subscription_new subscription_notify other_type : ExosipType

-- Message::toStr
unfoldable pub to_str : ExosipType → Bytes
to_str registration_success = codes "register"
to_str call_invite = codes "invite"
to_str call_reinvite = codes "reinvite"
to_str call_noanswer = codes "noanswer"
to_str subscription_noanswer = codes "noanswer"
to_str notification_noanswer = codes "noanswer"
to_str message_proceeding = codes "proceed"
to_str notification_proceeding = codes "proceed"
to_str call_message_proceeding = codes "proceed"
to_str subscription_proceeding = codes "proceed"
to_str call_proceeding = codes "proceed"
to_str call_ringing = codes "ring"
to_str message_answered = codes "answer"
to_str call_answered = codes "answer"
to_str call_message_answered = codes "answer"
to_str subscription_answered = codes "answer"
to_str notification_answered = codes "answer"
to_str subscription_redirected = codes "redirect"
to_str notification_redirected = codes "redirect"
to_str call_message_redirected = codes "redirect"
to_str call_redirected = codes "redirect"
to_str message_redirected = codes "redirect"
to_str registration_failure = codes "noreg"
to_str subscription_requestfailure = codes "failed"
to_str notification_requestfailure = codes "failed"
to_str call_requestfailure = codes "failed"
to_str call_message_requestfailure = codes "failed"
to_str message_requestfailure = codes "failed"
to_str subscription_serverfailure = codes "server"
to_str notification_serverfailure = codes "server"
to_str call_serverfailure = codes "server"
to_str call_message_serverfailure = codes "server"
to_str message_serverfailure = codes "server"
to_str subscription_globalfailure = codes "global"
to_str notification_globalfailure = codes "global"
to_str call_globalfailure = codes "global"
to_str call_message_globalfailure = codes "global"
to_str message_globalfailure = codes "global"
to_str call_ack = codes "ack"
to_str call_closed = codes "bye"
to_str call_released = codes "bye"
to_str call_cancelled = codes "cancel"
to_str message_new = codes "new"
to_str call_message_new = codes "new"
to_str in_subscription_new = codes "new"
to_str subscription_notify = codes "notify"
to_str other_type = codes "unknown"

-- Event::toString, of the type's number; `none` is an event without an eXosip event.
unfoldable pub to_string : (ExosipType → Bytes) → Option ExosipType → Bytes
to_string number none = codes "none"
to_string number (some registration_success) = number registration_success ++ codes "/register"
to_string number (some call_invite) = number call_invite ++ codes "/invite"
to_string number (some call_reinvite) = number call_reinvite ++ codes "/reinvite"
to_string number (some call_noanswer) = number call_noanswer ++ codes "/noanswer"
to_string number (some subscription_noanswer) = number subscription_noanswer ++ codes "/noanswer"
to_string number (some notification_noanswer) = number notification_noanswer ++ codes "/noanswer"
to_string number (some message_proceeding) = number message_proceeding ++ codes "/proceed"
to_string number (some notification_proceeding) = number notification_proceeding ++ codes "/proceed"
to_string number (some call_message_proceeding) = number call_message_proceeding ++ codes "/proceed"
to_string number (some subscription_proceeding) = number subscription_proceeding ++ codes "/proceed"
to_string number (some call_proceeding) = number call_proceeding ++ codes "/proceed"
to_string number (some call_ringing) = number call_ringing ++ codes "/ring"
to_string number (some message_answered) = number message_answered ++ codes "/answer"
to_string number (some call_answered) = number call_answered ++ codes "/answer"
to_string number (some call_message_answered) = number call_message_answered ++ codes "/answer"
to_string number (some subscription_answered) = number subscription_answered ++ codes "/answer"
to_string number (some notification_answered) = number notification_answered ++ codes "/answer"
to_string number (some subscription_redirected) =
    number subscription_redirected ++ codes "/redirect"
to_string number (some notification_redirected) =
    number notification_redirected ++ codes "/redirect"
to_string number (some call_message_redirected) =
    number call_message_redirected ++ codes "/redirect"
to_string number (some call_redirected) = number call_redirected ++ codes "/redirect"
to_string number (some message_redirected) = number message_redirected ++ codes "/redirect"
to_string number (some registration_failure) = number registration_failure ++ codes "/noreg"
to_string number (some subscription_requestfailure) =
    number subscription_requestfailure ++ codes "/failed"
to_string number (some notification_requestfailure) =
    number notification_requestfailure ++ codes "/failed"
to_string number (some call_requestfailure) = number call_requestfailure ++ codes "/failed"
to_string number (some call_message_requestfailure) =
    number call_message_requestfailure ++ codes "/failed"
to_string number (some message_requestfailure) = number message_requestfailure ++ codes "/failed"
to_string number (some subscription_serverfailure) =
    number subscription_serverfailure ++ codes "/server"
to_string number (some notification_serverfailure) =
    number notification_serverfailure ++ codes "/server"
to_string number (some call_serverfailure) = number call_serverfailure ++ codes "/server"
to_string number (some call_message_serverfailure) =
    number call_message_serverfailure ++ codes "/server"
to_string number (some message_serverfailure) = number message_serverfailure ++ codes "/server"
to_string number (some subscription_globalfailure) =
    number subscription_globalfailure ++ codes "/global"
to_string number (some notification_globalfailure) =
    number notification_globalfailure ++ codes "/global"
to_string number (some call_globalfailure) = number call_globalfailure ++ codes "/global"
to_string number (some call_message_globalfailure) =
    number call_message_globalfailure ++ codes "/global"
to_string number (some message_globalfailure) = number message_globalfailure ++ codes "/global"
to_string number (some call_ack) = number call_ack ++ codes "/ack"
to_string number (some call_closed) = number call_closed ++ codes "/bye"
to_string number (some call_released) = number call_released ++ codes "/bye"
to_string number (some call_cancelled) = number call_cancelled ++ codes "/cancel"
to_string number (some message_new) = number message_new ++ codes "/new"
to_string number (some call_message_new) = number call_message_new ++ codes "/new"
to_string number (some in_subscription_new) = number in_subscription_new ++ codes "/new"
to_string number (some subscription_notify) = number subscription_notify ++ codes "/notify"
to_string number (some other_type) = codes "unknown"

-- The server and the client name the events alike: the server writes the type's number and a slash in
-- front of the client's name, but for the types that have no name, where both write "unknown".
pub to_string-to_str :
    (number : ExosipType → Bytes) (type : ExosipType)
    → (to_string number (some type) ≡ number type ++ b'/' ∷ to_str type)
      ⊎ ((to_string number (some type) ≡ codes "unknown") × (to_str type ≡ codes "unknown"))
unfolding to_string to_str
to_string-to_str number other_type = inr (refl, refl)
to_string-to_str number registration_success = inl refl
to_string-to_str number call_invite = inl refl
to_string-to_str number call_reinvite = inl refl
to_string-to_str number call_noanswer = inl refl
to_string-to_str number subscription_noanswer = inl refl
to_string-to_str number notification_noanswer = inl refl
to_string-to_str number message_proceeding = inl refl
to_string-to_str number notification_proceeding = inl refl
to_string-to_str number call_message_proceeding = inl refl
to_string-to_str number subscription_proceeding = inl refl
to_string-to_str number call_proceeding = inl refl
to_string-to_str number call_ringing = inl refl
to_string-to_str number message_answered = inl refl
to_string-to_str number call_answered = inl refl
to_string-to_str number call_message_answered = inl refl
to_string-to_str number subscription_answered = inl refl
to_string-to_str number notification_answered = inl refl
to_string-to_str number subscription_redirected = inl refl
to_string-to_str number notification_redirected = inl refl
to_string-to_str number call_message_redirected = inl refl
to_string-to_str number call_redirected = inl refl
to_string-to_str number message_redirected = inl refl
to_string-to_str number registration_failure = inl refl
to_string-to_str number subscription_requestfailure = inl refl
to_string-to_str number notification_requestfailure = inl refl
to_string-to_str number call_requestfailure = inl refl
to_string-to_str number call_message_requestfailure = inl refl
to_string-to_str number message_requestfailure = inl refl
to_string-to_str number subscription_serverfailure = inl refl
to_string-to_str number notification_serverfailure = inl refl
to_string-to_str number call_serverfailure = inl refl
to_string-to_str number call_message_serverfailure = inl refl
to_string-to_str number message_serverfailure = inl refl
to_string-to_str number subscription_globalfailure = inl refl
to_string-to_str number notification_globalfailure = inl refl
to_string-to_str number call_globalfailure = inl refl
to_string-to_str number call_message_globalfailure = inl refl
to_string-to_str number message_globalfailure = inl refl
to_string-to_str number call_ack = inl refl
to_string-to_str number call_closed = inl refl
to_string-to_str number call_released = inl refl
to_string-to_str number call_cancelled = inl refl
to_string-to_str number message_new = inl refl
to_string-to_str number call_message_new = inl refl
to_string-to_str number in_subscription_new = inl refl
to_string-to_str number subscription_notify = inl refl
