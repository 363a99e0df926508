-- ===== src/Parser/Filters/Parsed.antt =====
-- The callers that ParseFiltersV1 returns.
use iceberg.Common.Url.{Url}
use iceberg.Parser.Conf.{FilterV1, Filters, end, filter}
use iceberg.Parser.Runtime.{Runtime}
use iceberg.Parser.Level.{Names, connects, requests, responds, level_of-Names}
use iceberg.Parser.Timeout.Refused.{timeout-eq-ret_iff}
use iceberg.Parser.Filters.{parse_filters, parse_timeout, filter_build, filter_level, filter_of}
use iceberg.Filters.Build.Built.{build_filter-eq-ret}
use iceberg.Nats.Conn.{Gateway}
use iceberg.Netio.Caller.{Caller}
use iceberg.Netio.Message.{cancelled_after}
use iceberg.Netio.Sort.{has_level, level_none}
use iceberg.Netio.Exec.{exec-eq-ret, lift}
use iceberg.Common.Go.{ret_inj, map_error-eq-ret}
use mathlib.Core.Path.{subst}
use iceberg.Common.{ℕ, List, [], ◌∷◌, Bool, true, false, ◌≡◌, refl, sym, All}
use iceberg.Common.Go.{ret}
use iceberg.Common.Text.{Text, text_eq}

-- No filter of the list, or under it, has a timeout.
abbrev pub Untimed : Filters → Type 0
Untimed end = Unit
Untimed (filter f next rest) = (f.timeout ≡ []) × Untimed next × Untimed rest

-- The level that the text names, or LEVEL_NONE where no level is supported.
abbrev pub HasLevel : Bool → Text → ℕ → Type 0
HasLevel true text l = Names text l
HasLevel false text l = l ≡ level_none

-- The caller is that of the filter: its level, name and tasks, no updaters, and thirty seconds.
pub record IsConfigured {W : Type 0} (supports : Bool) (f : FilterV1) (c : Caller W) : Type 0 where
  pub levelled : HasLevel supports f.level c.level
  pub named : c.name ≡ f.name
  pub parallel : c.is_parallel ≡ f.async
  pub awaiting : c.await_list ≡ f.await
  pub no_request_updaters : c.request_updaters ≡ []
  pub no_response_updaters : c.response_updaters ≡ []
  pub half_minute : c.context ≡ cancelled_after 30_000_000_000

-- One caller for each filter, in order.
abbrev pub Configured : {W : Type 0} → Bool → Filters → List (Caller W) → Type 0
Configured supports end [] = Unit
Configured supports end (c ∷ cs) = ⊥
Configured supports (filter f next rest) [] = ⊥
Configured supports (filter f next rest) (c ∷ cs) =
    IsConfigured supports f c × Configured supports rest cs

Names-levelled : (text : Text) (l : ℕ) → Names text l → has_level level_none l ≡ false
Names-levelled text l (connects _ e) = rw e refl
Names-levelled text l (requests _ e) = rw e refl
Names-levelled text l (responds _ e) = rw e refl

-- Where levels are supported, no caller has LEVEL_NONE.
pub Configured-levelled :
    {W : Type 0} (fs : Filters) (cs : List (Caller W))
    → Configured true fs cs
    → All (λ c. has_level level_none c.level ≡ false) cs
Configured-levelled end [] h = tt
Configured-levelled end (c ∷ cs) h = elim h [ ]
Configured-levelled (filter f next rest) [] h = elim h [ ]
Configured-levelled (filter f next rest) (c ∷ cs) (here, h) =
    (Names-levelled f.level c.level here.levelled, Configured-levelled rest cs h)

filter_level-HasLevel :
    (supports : Bool) (level : Text) (l : ℕ)
    → filter_level supports level ≡ ret l
    → HasLevel supports level l
filter_level-HasLevel true level l e = level_of-Names level l e
filter_level-HasLevel false level l e = sym (ret_inj e)

module _ {W Conn Js Queue : Type 0} (rt : Runtime W Conn Js Queue) where
  parse_timeout-eq-ret :
      (text : Text) (d : ℕ) → parse_timeout rt text ≡ ret d → (text ≡ []) × (d ≡ 0)
  unfolding parse_timeout
  parse_timeout-eq-ret text d e =
      (timeout-eq-ret_iff rt.other_digit text d).0 (map_error-eq-ret _ _ _ e)

  built-IsConfigured :
      (f : FilterV1) (url : Url) (level ttl : ℕ) (next : List (Caller W)) (supports : Bool)
      (g : Gateway W Conn) (c : Caller W)
      → HasLevel supports f.level level
      → ttl ≡ 0
      → (filter_build rt (filter_of f url level ttl next) g).0 ≡ ret c
      → IsConfigured supports f c
  unfolding filter_build
  built-IsConfigured f url level ttl next supports g c levelled unset e =
      let (call, same) =
        build_filter-eq-ret rt.getenv rt.atoi_error rt.headers rt.send rt.broker
          (filter_of f url level ttl next) g c e in
      subst (IsConfigured supports f) (sym same) (record {
        levelled = levelled;
        named = refl;
        parallel = refl;
        awaiting = refl;
        no_request_updaters = refl;
        no_response_updaters = refl;
        half_minute = rw unset refl;
      })

  -- Where ParseFiltersV1 returns callers, no filter of the configuration, nor any that is nested in
  -- it, has a timeout. There is one caller for each filter, in order, with its name, its tasks to
  -- await and its parallelism; it has the level CONNECT, REQUEST or RESPONSE that the filter names
  -- (LEVEL_NONE where no level is supported), no updaters, whatever the filter says of its exchange,
  -- and thirty seconds.
  pub parse_filters-eq-ret :
      (fs : Filters) (supports : Bool) (g : Gateway W Conn) (cs : List (Caller W))
      → (parse_filters rt fs supports g).0 ≡ ret cs
      → Untimed fs × Configured supports fs cs
  unfolding parse_filters
  parse_filters-eq-ret end supports g cs e = (tt, subst (Configured supports end) (ret_inj e) tt)
  parse_filters-eq-ret (filter f next rest) supports g cs e =
      let (url, _, e₁) = exec-eq-ret (lift (rt.parse_url f.addr)) _ g cs e in
      let (level, levelled, e₂) = exec-eq-ret (lift (filter_level supports f.level)) _ g cs e₁ in
      let (ttl, timed, e₃) = exec-eq-ret (lift (parse_timeout rt f.timeout)) _ g cs e₂ in
      let (callers, nested, e₄) = exec-eq-ret (parse_filters rt next false) _ g cs e₃ in
      let (caller, built, e₅) =
        exec-eq-ret (filter_build rt (filter_of f url level ttl callers)) _ _ cs e₄ in
      let (others, behind, e₆) = exec-eq-ret (parse_filters rt rest supports) _ _ cs e₅ in
      let (empty, unset) = parse_timeout-eq-ret f.timeout ttl timed in
      let (no_next, _) = parse_filters-eq-ret next false g callers nested in
      let (no_rest, configured) = parse_filters-eq-ret rest supports _ others behind in
      (
        (empty, no_next, no_rest),
        subst (Configured supports (filter f next rest)) (ret_inj e₆) (
          built-IsConfigured f url level ttl callers supports _ caller
              (filter_level-HasLevel supports f.level level levelled) unset built,
          configured,
        ),
      )
