-- ===== src/Netio/Written.antt =====
-- What the writing of a response needs: a header that is not nil.
use iceberg.Common.{[], ◌∷◌, ◌++◌, List, some, refl, ap, ◌∙◌, ◌≡◌}
use iceberg.Common.Go.{ret, ◌>>=◌}
use iceberg.Netio.Response.{header_del, entries, add_values, add_all, write, Sent, ShadowResponse}
use iceberg.Netio.Header.{header_add}
use iceberg.Common.Map.{Map}
use iceberg.Common.Text.{text_eq, Text, codes}

add_values-some :
    (key : Text) (vs : List Text) (h : Map Text (List Text))
    → (h' : Map Text (List Text)) × (add_values (some h) key vs ≡ ret (some h'))
unfolding add_values header_add
add_values-some key [] h = (h, refl)
add_values-some key (v ∷ vs) h = add_values-some key vs _

pub add_all-some :
    (m h : Map Text (List Text))
    → (h' : Map Text (List Text)) × (add_all (some h) m ≡ ret (some h'))
unfolding add_all
add_all-some [] h = (h, refl)
add_all-some ((key, values) ∷ m) h =
    let (h₁, here) = add_values-some key values h in
    let (h₂, later) = add_all-some m h₁ in (h₂, ap (λ t. t >>= λ h'. add_all h' m) here ∙ later)

pub write-some :
    (out : ShadowResponse) (w : Sent) (h : Map Text (List Text))
    → w.header ≡ some h
    → (w' : Sent) × (write out w ≡ ret w')
unfolding write
write-some out w h e =
    let values = entries (header_del out.response.header (codes "Content-Length")) in
    let (h', added) = add_all-some values h in
    (
      record w { header = some h'; body = w.body ++ out.data_bytes },
      ap
            (λ t. add_all t values >>= λ h.
              ret (record w { header = h; body = w.body ++ out.data_bytes }))
            e
          ∙ ap (λ t. t >>= λ h. ret (record w { header = h; body = w.body ++ out.data_bytes }))
              added,
    )
