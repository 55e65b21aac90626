-- ===== src/Context/Filter.antt =====
-- What `Context::process` lets through to the manager.
use tycho_sipwitchqt.Prelude.{All}
use tycho_sipwitchqt.Sip.{Event}
use tycho_sipwitchqt.Context.{Request, request, Context, Result}
use tycho_sipwitchqt.Context.Conditions.{IsFine}

module _ (ctx : Context) (ev : Event) where
  abbrev Fine : Result → Type 0
  Fine r = All (IsFine ctx ev) r.0

  abbrev Sent : Request → Type 0
  Sent q = IsFine ctx ev (request q)
