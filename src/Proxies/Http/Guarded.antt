-- ===== src/Proxies/Http/Guarded.antt =====
-- An HTTP proxy behind a policy.
use iceberg.Netio.Header.{Header, header_add}
use iceberg.Opa.Agent.{Agent, OpaNats, http, opa_caller}
use iceberg.Opa.Decision.{Granted, call-eq-ret}
use iceberg.Proxies.Http.{Proxy, http_caller, new_http_proxy}
use iceberg.Netio.Caller.{Caller, Turn, request_id}
use iceberg.Netio.Cascade.{cascade}
use iceberg.Netio.Cascade.Gate.{Stops, cascade_gated}
use iceberg.Netio.Message.{Request, Response, HttpError}
use iceberg.Netio.Request.{ShadowRequest, clone_request, set_header}
use iceberg.Netio.Sort.{has_level, level_none}
use iceberg.Netio.Sort.Order.{sort-concat}
use mathlib.Core.Path.{subst}
use iceberg.Common.{ℕ, List, [], ◌∷◌, some, false, ◌≡◌, refl, sym, ◌⊎◌, All}
use iceberg.Common.Go.{Go, ret}
use iceberg.Common.Text.{Text, text_eq}

-- The policy of the HTTP requests of a resource.
abbrev pub on_http : OpaNats → OpaNats
on_http opa = record opa { opa_type = http }

module _ {W : Type 0} (agent : Agent W) (send : Request → W → Go Text Response × W) where
  -- The policy comes first.
  new_http_proxy-opa :
      (grow : ℕ → ℕ) (p : Proxy) (opa : OpaNats) (callers : List (Caller W))
      → All (λ c. has_level level_none c.level ≡ false) callers
      → (rest : List (Caller W)) × (new_http_proxy send grow p
            (opa_caller agent (on_http opa) ∷ callers)
          ≡ opa_caller agent (on_http opa) ∷ rest)
  unfolding new_http_proxy opa_caller
  new_http_proxy-opa grow p opa callers levels = (
    _,
    sort-concat (λ c. c.level) grow (opa_caller agent (on_http opa) ∷ callers) (http_caller send p)
        (refl, levels) refl,
  )

  -- The agent was asked about the clone of the request, marked with the identifier, and granted it.
  abbrev pub IsGranted : OpaNats → Text → ShadowRequest → W → Type 0
  IsGranted opa uuid request world =
      (h : Header) × (header_add {E = HttpError} request.request.header request_id uuid ≡ ret h)
      × ((r : Request) × (clone_request (set_header request h) [] ≡ ret r)
          × Granted agent (on_http opa) request.route_values world r)

  -- Where an HTTP proxy has a policy and other callers, none of LEVEL_NONE, either the agent was asked
  -- about the request and granted it, or the cascade runs as that of the policy alone, without the
  -- proxy and the other callers, and returns an error or panics: a request that the agent does not
  -- grant never reaches the backend, and changes nothing behind the policy.
  pub cascade-guarded :
      (grow : ℕ → ℕ) (p : Proxy) (opa : OpaNats) (callers : List (Caller W)) (uuid : Text)
      (turns : List Turn) (request : ShadowRequest) (world : W)
      → All (λ c. has_level level_none c.level ≡ false) callers
      → IsGranted opa uuid request world
        ⊎ Stops
            (cascade uuid turns request
              (some (new_http_proxy send grow p (opa_caller agent (on_http opa) ∷ callers)))
              world)
            (cascade uuid turns request (some (opa_caller agent (on_http opa) ∷ [])) world)
  unfolding opa_caller
  cascade-guarded grow p opa callers uuid turns request world levels =
      let (rest, split) = new_http_proxy-opa grow p opa callers levels in
      let alone = cascade uuid turns request (some (opa_caller agent (on_http opa) ∷ [])) world in
      subst
        (λ cs.
          IsGranted opa uuid request world
          ⊎ Stops (cascade uuid turns request (some cs) world) alone)
        (sym split)
        (cascade_gated (opa_caller agent (on_http opa)) (IsGranted opa uuid request world) world
          request uuid turns rest
          (λ h marked ctx o result e.
            let (_, (r, copied, granted)) =
              call-eq-ret agent (on_http opa) ctx request.route_values
                (clone_request (set_header request h)) o world result e in
            (h, marked, (r, copied, granted))))
