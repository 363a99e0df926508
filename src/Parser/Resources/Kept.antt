-- ===== src/Parser/Resources/Kept.antt =====
-- What ParseV1 hands to handleFunc.
use iceberg.Parser.Conf.{ResourceV1}
use iceberg.Parser.Runtime.{Runtime}
use iceberg.Parser.Filters.Parsed.{parse_filters-eq-ret, Configured-levelled}
use iceberg.Parser.Resources.{
  Registration, parse_resource, finish_resource, parse_v1, ended_by, register_with, hand_on,
}
use iceberg.Parser.Resources.Levelled.{IsLevelled, parse_middleware-IsLevelled}
use iceberg.Nats.Conn.{Gateway}
use iceberg.Netio.Caller.{Caller}
use iceberg.Netio.Exec.{Exec, ◌>>◌, proceed}
use iceberg.Common.Url.{Url}
use iceberg.Common.{List, [], ◌∷◌, ◌++◌, true, ◌≡◌, refl, ap, All, All-append}
use iceberg.Common.Go.{Go, ret, fail, panic}
use iceberg.Common.Text.{Text, text_eq}
use iceberg.Common.Map.{Map}

module _ {W Conn Js Queue : Type 0} (rt : Runtime W Conn Js Queue) where
  module _ {T : Type 0} (handle_func : Registration rt → T → Go Text (Unit {0}) × T)
      (P : T → Type 0)
      (keeps : (r : Registration rt) (t : T)
        → All IsLevelled r.callers
        → P t
        → P (handle_func r t).1) where
    -- An action that keeps what P says of the state of handleFunc.
    abbrev pub KeepsP : Exec (Gateway W Conn × T) Text (Unit {0}) → Type 0
    KeepsP m = (g : Gateway W Conn) (t : T) → P t → P (m (g, t)).1.1

    hand_on-keeps :
        (r : Registration rt) (go_on : Exec (Gateway W Conn × T) Text (Unit {0}))
        → All IsLevelled r.callers
        → KeepsP go_on
        → KeepsP (hand_on rt handle_func r >> go_on)
    hand_on-keeps r go_on levelled rest g t h = after _ (keeps r t levelled h)
      where
        after :
            (out : Go Text (Unit {0}) × T) → P out.1 → P (proceed out.0 (λ _. go_on) (g, out.1)).1.1
        after (ret _, t') h = rest g t' h
        after (fail _, t') h = h
        after (panic, t') h = h

    filters-keep :
        (value : ResourceV1) (url : Url) (middleware : List (Caller W))
        (go_on : Exec (Gateway W Conn × T) Text (Unit {0}))
        → All IsLevelled middleware
        → KeepsP go_on
        → (g : Gateway W Conn) (t : T) → (found : Go Text (List (Caller W)))
        → ((cs : List (Caller W)) → found ≡ ret cs → All IsLevelled cs)
        → P t
        → P
            (ended_by rt handle_func found
              (register_with rt handle_func value url middleware go_on)
              (g, t)).1.1
    filters-keep value url middleware go_on levelled rest g t (ret cs) sorted h =
        hand_on-keeps _ go_on (All-append IsLevelled middleware cs levelled (sorted cs refl)) rest g
          t h
    filters-keep value url middleware go_on levelled rest g t (fail e) sorted h = h
    filters-keep value url middleware go_on levelled rest g t panic sorted h = h

    parse_resource-keeps :
        (value : ResourceV1) (go_on : Exec (Gateway W Conn × T) Text (Unit {0})) (url : Url)
        → KeepsP go_on
        → KeepsP (parse_resource rt handle_func value go_on url)
    parse_resource-keeps value go_on url rest g t h =
        after _ (parse_middleware-IsLevelled rt value g) h
      where
        after :
            (out : Go Text (List (Caller W)) × Gateway W Conn)
            → ((cs : List (Caller W)) → out.0 ≡ ret cs → All IsLevelled cs)
            → P t
            → P (proceed out.0 (finish_resource rt handle_func value go_on url) (out.1, t)).1.1
        after (ret middleware, g') levelled h =
            filters-keep value url middleware go_on (levelled middleware refl) rest _ t _
              (λ cs e.
                Configured-levelled value.filters cs
                  (parse_filters-eq-ret rt value.filters true g' cs e).1)
              h
        after (fail e, g') levelled h = h
        after (panic, g') levelled h = h

    url-keeps :
        (found : Go Text Url) (value : ResourceV1)
        (go_on : Exec (Gateway W Conn × T) Text (Unit {0}))
        → KeepsP go_on
        → KeepsP (ended_by rt handle_func found (parse_resource rt handle_func value go_on))
    url-keeps (ret url) value go_on rest g t h = parse_resource-keeps value go_on url rest g t h
    url-keeps (fail e) value go_on rest g t h = h
    url-keeps panic value go_on rest g t h = h

    -- What holds of the state of handleFunc, and is kept by each call of it with callers none of which
    -- has LEVEL_NONE, still holds when ParseV1 ends, however it ends.
    pub parse_v1-keeps :
        (resources : Map Text ResourceV1) (g : Gateway W Conn) (t : T)
        → P t
        → P (parse_v1 rt handle_func resources (g, t)).1.1
    unfolding parse_v1
    parse_v1-keeps [] g t h = h
    parse_v1-keeps ((_, value) ∷ resources) g t h =
        url-keeps (rt.parse_url value.backend) value (parse_v1 rt handle_func resources)
          (parse_v1-keeps resources) g t h

  module _ {T : Type 0} (handle_func : Registration rt → T → Go Text (Unit {0}) × T) where
    -- A resource whose backend is no URL ends ParseV1 without an error: neither it nor any resource
    -- that the range comes to later is handed to handleFunc.
    pub parse_v1-append :
        (before after : Map Text ResourceV1) (key : Text) (value : ResourceV1) (e : Text)
        → rt.parse_url value.backend ≡ fail e
        → parse_v1 rt handle_func (before ++ (key, value) ∷ after) ≡ parse_v1 rt handle_func before
    unfolding parse_v1
    parse_v1-append [] after key value e bad = rw bad refl
    parse_v1-append ((k, v) ∷ before) after key value e bad =
        ap
          (λ go_on.
            ended_by rt handle_func (rt.parse_url v.backend)
              (parse_resource rt handle_func v go_on))
          (parse_v1-append before after key value e bad)
