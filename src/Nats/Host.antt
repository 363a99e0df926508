-- ===== src/Nats/Host.antt =====
-- A host in a configuration may name a variable of the environment, `[[NAME]]`: the same lines of
-- NewBaseNATS (internal/callers/filters/nats.go), NewOpaNats (internal/middleware/opa/http.go) and
-- NewJetStream (internal/middleware/cache/jetstream.go). os.Getenv is the parameter `env`.
use iceberg.Common.{All-reverse, All-imp}
use iceberg.Common.Text.{has_prefix, has_suffix, trim_left, trim_right}
use mathlib.Core.List.{reverse, reverse-append, reverse-reverse}
use iceberg.Common.{
  ℕ, [], ◌∷◌, ◌++◌, true, false, ◌&&◌, ◌==◌, if◌then◌else◌, ◌≡◌, refl, ap, ◌∙◌, All,
}
use iceberg.Common.Text.{Text, codes, text_eq}

module _ (env : Text → Text) where
  unfoldable pub resolve_host : Text → Text
  resolve_host host =
      if has_prefix host (codes "[[") && has_suffix host (codes "]]")
      then env (trim_right b']' (trim_left b'[' host))
      else host

-- No bracket.
abbrev pub IsPlain : ℕ → Type 0
IsPlain c = ((c == b'[') ≡ false) × ((c == b']') ≡ false)

trim_left_lem : (cut : ℕ) (s : Text) → All (λ c. (c == cut) ≡ false) s → trim_left cut s ≡ s
unfolding trim_left
trim_left_lem cut [] h = refl
trim_left_lem cut (c ∷ s) (other, _) = rw other refl

trim_left_open : (s : Text) → All IsPlain s → trim_left b'[' (s ++ codes "]]") ≡ s ++ codes "]]"
unfolding trim_left
trim_left_open [] h = refl
trim_left_open (c ∷ s) ((other, _), _) = rw other refl

trim_right_close : (s : Text) → All IsPlain s → trim_right b']' (s ++ codes "]]") ≡ s
unfolding trim_right trim_left
trim_right_close s h =
    ap (λ t. reverse (trim_left b']' t)) (reverse-append s (codes "]]"))
    ∙ ap reverse (
        trim_left_lem b']' (reverse s)
          (All-reverse (λ c. (c == b']') ≡ false) s (All-imp s (λ c p. p.1) h)))
    ∙ reverse-reverse s

has_suffix-append : (s : Text) → has_suffix (s ++ codes "]]") (codes "]]") ≡ true
has_suffix-append s = ap (λ t. has_prefix t (codes "]]")) (reverse-append s (codes "]]"))

-- The host `[[NAME]]`, whose name has no bracket, stands for the variable NAME.
pub resolve_host-env :
    (env : Text → Text) (name : Text)
    → All IsPlain name
    → resolve_host env (codes "[[" ++ name ++ codes "]]") ≡ env name
unfolding resolve_host trim_left
resolve_host-env env name h =
    rw (has_suffix-append (codes "[[" ++ name), trim_left_open name h, trim_right_close name h) refl
