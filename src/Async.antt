-- ===== src/Async.antt =====
-- internal/async_assertion.go: the assertion's configuration. Children model the poller, the
-- polling loop and the failure report.
pub mod Poller
pub mod Args
mod Examples
pub mod Loop
use gomega.Base.Int.{ℤ, pos, negsuc, is_negative}
use gomega.Base.{ℕ, Bool, Option, none, some, List, [], ◌∷◌, if◌then◌else◌, is_none}

pub data AsyncType : Type 0 where
  eventually consistently : AsyncType

pub record DurationBundle : Type 0 where
  pub eventually_timeout : ℤ
  pub eventually_polling_interval : ℤ
  pub consistently_duration : ℤ
  pub consistently_polling_interval : ℤ

-- AsyncAssertion, less `actual` and `g`. `has_ctx` is `ctx != nil`.
pub record Config : Type 0 where
  pub async_type : AsyncType
  pub timeout_interval : ℤ
  pub polling_interval : ℤ
  pub must_pass_repeatedly : ℤ
  pub has_ctx : Bool
  pub offset : ℕ
  pub bundle : DurationBundle

unfoldable pub with_timeout : ℤ → Config → Config
with_timeout d c = record c { timeout_interval = d }

unfoldable pub with_polling : ℤ → Config → Config
with_polling d c = record c { polling_interval = d }

unfoldable pub with_must_pass_repeatedly : ℤ → Config → Config
with_must_pass_repeatedly n c = record c { must_pass_repeatedly = n }

unfoldable pub with_context : Config → Config
with_context c = record c { has_ctx = Bool.true }

-- afterTimeout: `none` is the nil channel, which never delivers.
unfoldable pub after_timeout : Config → Option ℤ
after_timeout c =
    if is_negative c.timeout_interval
    then elim c.async_type [
      | consistently ↦ some c.bundle.consistently_duration
      | eventually ↦ if c.has_ctx then none else some c.bundle.eventually_timeout
    ]
    else some c.timeout_interval

-- afterPolling.
unfoldable pub after_polling : Config → ℤ
after_polling c =
    if is_negative c.polling_interval
    then elim c.async_type [
      | consistently ↦ c.bundle.consistently_polling_interval
      | eventually ↦ c.bundle.eventually_polling_interval
    ]
    else c.polling_interval
