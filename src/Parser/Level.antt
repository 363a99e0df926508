-- ===== src/Parser/Level.antt =====
-- Level of internal/bootstrap/parser/parser.go.
use iceberg.Common.{ℕ, ◌≡◌, sym, if◌then◌else◌, ◌++◌, inl, inr, Bool-cases}
use iceberg.Common.Go.{Go, ret, fail, ret_inj}
use iceberg.Common.Text.{Text, codes, text_beq, text_beq_iff, to_lower}
use iceberg.Netio.Sort.{level_connect, level_request, level_response}

unfoldable pub level_of : Text → Go Text ℕ
level_of level =
    let lower = to_lower level in
    if text_beq lower (codes "connect")
    then ret level_connect
    else if text_beq lower (codes "request")
    then ret level_request
    else if text_beq lower (codes "response")
    then ret level_response
    else fail (codes "unsupported level " ++ level)

-- What a text says of a level, in any case: the levels of which Sort keeps every caller.
pub data Names (text : Text) (l : ℕ) : Type 0 where
  connects : to_lower text ≡ codes "connect" → l ≡ level_connect → Names text l
  requests : to_lower text ≡ codes "request" → l ≡ level_request → Names text l
  responds : to_lower text ≡ codes "response" → l ≡ level_response → Names text l

pub level_of-Names : (level : Text) (l : ℕ) → level_of level ≡ ret l → Names level l
unfolding level_of
level_of-Names level l e = elim (Bool-cases (text_beq (to_lower level) (codes "connect"))) [
  | inl same ↦
      let made : ret level_connect ≡ ret l = rw same at e in
      connects ((text_beq_iff _ _).0 same) (sym (ret_inj made))
  | inr other ↦ elim (Bool-cases (text_beq (to_lower level) (codes "request"))) [
    | inl same ↦
        let made : ret level_request ≡ ret l = rw (other, same) at e in
        requests ((text_beq_iff _ _).0 same) (sym (ret_inj made))
    | inr other' ↦ elim (Bool-cases (text_beq (to_lower level) (codes "response"))) [
      | inl same ↦
          let made : ret level_response ≡ ret l = rw (other, other', same) at e in
          responds ((text_beq_iff _ _).0 same) (sym (ret_inj made))
      | inr other'' ↦
          let wrong : fail (codes "unsupported level " ++ level) ≡ ret l =
            rw (other, other', other'') at e in
          absurd (cc)
    ]
  ]
]
