-- ===== src/Netio/Clone.antt =====
-- internal/common/netio/common.go: the deep copies. Values here share nothing, so a copy of a
-- header is the header; what the functions decide is which parts a copy keeps.
use iceberg.Common.{List, [], ◌∷◌, map, Option, none, some}
use iceberg.Common.Map.{Map}
use iceberg.Common.Text.{Text}
use iceberg.Common.Url.{Url}
use iceberg.Netio.Header.{Header}
use iceberg.Netio.Message.{FileHeader, MultipartForm}

unfoldable pub clone_url : Option Url → Option Url
clone_url none = none
clone_url (some u) = some (record u { user = u.user; host = u.host; scheme = u.scheme })

unfoldable pub clone_header : Header → Header
clone_header none = none
clone_header (some h) = some h

unfoldable pub clone_url_values : Option (Map Text (List Text)) → Option (Map Text (List Text))
unfolding clone_header
clone_url_values none = none
clone_url_values (some v) = clone_header (some v)

unfoldable pub clone_transfer_encoding : Option (List Text) → Option (List Text)
clone_transfer_encoding none = none
clone_transfer_encoding (some encodings) = some encodings

unfoldable pub clone_multipart_file_header : Option FileHeader → Option FileHeader
unfolding clone_header
clone_multipart_file_header none = none
clone_multipart_file_header (some fh) = some (record fh { header = clone_header fh.header })

abbrev pub clone_files : Map Text (List (Option FileHeader)) → Map Text (List (Option FileHeader))
clone_files [] = []
clone_files ((k, vv) ∷ m) = (k, map clone_multipart_file_header vv) ∷ clone_files m

unfoldable pub clone_multipart_form : Option MultipartForm → Option MultipartForm
unfolding clone_header clone_multipart_file_header
clone_multipart_form none = none
clone_multipart_form (some f) = some (record {
  value = clone_header f.value;
  file = elim f.file [ none ↦ none | some m ↦ some (clone_files m) ];
})
