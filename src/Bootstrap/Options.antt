-- ===== src/Bootstrap/Options.antt =====
-- internal/bootstrap/common.go. What a handler answers is of a type `A`, which `answered` makes of
-- what was written. SHA-256 in hexadecimal is the parameter `digest`.
use iceberg.Router.{RouteTable, register}
use iceberg.Netio.Caller.{Turn}
use iceberg.Netio.Header.{header_add}
use iceberg.Netio.Message.{Request}
use iceberg.Netio.Response.{Sent}
use iceberg.Common.Go.{◌>>=◌ as go_bind}
use iceberg.Common.Url.{Url}
use iceberg.Proxies.Http.{Answer, written}
use iceberg.Common.{List, [], Option, Bool, true, false}
use iceberg.Common.Go.{Go, ret}
use iceberg.Common.Text.{Text, codes, text_eq}
use iceberg.Common.Map.{Map}

-- What a handler is called with, the writer and the request, and what its run depends on: the
-- identifier that its cascade draws, the schedule and the outside world.
pub record Visit (W : Type 0) : Type 0 where
  pub writer : Sent
  pub request : Request
  pub uuid : Text
  pub turns : List Turn
  pub world : W

-- The route values are `none` where they are the nil map.
abbrev pub Handler : Type 0 → Type 0 → Type 0
Handler W A = Visit W → Option (Map Text Text) → Go Text A

pub record Options : Type 0 where
  pub cors : Bool
  pub expose_headers : Text

-- The zero value of Options.
abbrev pub no_options : Options
no_options = record { cors = false; expose_headers = [] }

pub record Cors : Type 0 where
  pub allowed_origins : Text
  pub allowed_headers : Text
  pub allowed_methods : Text
  pub max_age : Text
  pub exposed_headers : Text

-- RegistrationOptions, on the options and the table that it changes. (The handler that it is given
-- is not used.)
abbrev pub RegistrationOption : Type 0 → Type 0 → Type 0
RegistrationOption W A =
    Url → Options × RouteTable (Handler W A) → Options × RouteTable (Handler W A)

-- Header.Add on the writer.
abbrev pub add_to : Text → Text → Sent → Go Text Sent
add_to key value w = go_bind (header_add w.header key value) λ h. ret (record w { header = h })

module _ {W A : Type 0} (digest : Text → Text) (answered : Answer → A) where
  -- The handler of OPTIONS.
  unfoldable pub preflight : Text → Text → Text → Text → Handler W A
  preflight origins headers max_age methods v rv =
      go_bind (add_to (codes "access-control-allow-origin") origins v.writer) λ w.
        go_bind (add_to (codes "access-control-allow-headers") headers w) λ w.
          go_bind (add_to (codes "access-control-max-age") max_age w) λ w.
            go_bind (add_to (codes "access-control-allow-methods") methods w)
              λ w. ret (answered (written (record w { status = 200 })))

  unfoldable pub with_cors_disabled : RegistrationOption W A
  unfolding preflight
  with_cors_disabled u (opt, rt) = (
    record { cors = true; expose_headers = codes "*" },
    register digest u (codes "OPTIONS")
        (preflight (codes "*") (codes "*") (codes "3628800")
          (codes "GET, DELETE, OPTIONS, POST, PUT"))
        rt,
  )

  unfoldable pub with_cors : Cors → RegistrationOption W A
  unfolding preflight
  with_cors c u (opt, rt) = (
    record { cors = true; expose_headers = c.exposed_headers },
    register digest u (codes "OPTIONS")
        (preflight c.allowed_origins c.allowed_headers c.max_age c.allowed_methods) rt,
  )
