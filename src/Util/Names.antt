-- ===== src/Util/Names.antt =====
-- Host names and ports.
use tycho_sipwitchqt.Prelude.{
  ℕ, suc, ◌≡◌, refl, ◌∙◌, some, [], ◌∷◌, ◌++◌, inl, inr, arith, take, drop, Option-cases,
}
use tycho_sipwitchqt.Prelude.Int.{ℤ, pos}
use tycho_sipwitchqt.UString.{Bytes}
use tycho_sipwitchqt.Util.{
  index_of, port_at, host_port, domain_of, name_of, local_domain, local_name,
}

-- A character that is found stands at its index.
split_at-index_of :
    (q : ℕ) (s : Bytes) (at : ℕ) → index_of q s ≡ some at → s ≡ take at s ++ q ∷ drop (suc at) s
unfolding index_of
split_at-index_of q [] at h = cc
split_at-index_of q (c ∷ cs) at h = elim (Option-cases (index_of q cs)) [
  | inl e ↦ ground (arith, e)
  | inr (n, e) ↦ ground (arith, e, split_at-index_of q cs n e)
]

-- Where the host's name has a dot and no domain is configured, `localName`, a dot and `localDomain`
-- are the host's name again.
pub local_name-local_domain :
    (host : Bytes) (at : ℕ)
    → index_of b'.' host ≡ some at
    → host ≡ local_name host ++ b'.' ∷ local_domain [] host
local_name-local_domain [] at h = unfold index_of in cc
local_name-local_domain (c ∷ cs) at h =
    split_at-index_of b'.' (c ∷ cs) at h
    ∙ (unfold local_name local_domain name_of domain_of in rw h)

-- `toInt` of a text that begins with a colon fails, and a failed `toInt` is 0.
abbrev pub RejectsColon : (Bytes → ℤ) → Type 0
RejectsColon to_int = (cs : Bytes) → to_int (b':' ∷ cs) ≡ pos 0

drop-index_of :
    (q : ℕ) (s : Bytes) (at : ℕ) → index_of q s ≡ some at → drop at s ≡ q ∷ drop (suc at) s
unfolding index_of
drop-index_of q [] at h = cc
drop-index_of q (c ∷ cs) at h = elim (Option-cases (index_of q cs)) [
  | inl e ↦ ground (arith, e)
  | inr (n, e) ↦ ground (arith, e, drop-index_of q cs n e)
]

-- `hostPort` is 0 for every host id, whatever port stands in it: `toInt` is handed the colon in
-- front of the digits too.
pub host_port-eq-zero :
    (to_int : Bytes → ℤ) (host_id : Bytes) → RejectsColon to_int → host_port to_int host_id ≡ pos 0
unfolding host_port
host_port-eq-zero to_int host_id rejects = elim (Option-cases (index_of b':' host_id)) [
  | inl e ↦ rw (e, port_at) refl
  | inr (at, e) ↦
      rw (e, port_at)
        (ground (arith, drop-index_of b':' host_id at e, rejects (drop (suc at) host_id)))
]
