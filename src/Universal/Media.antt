-- ===== src/Universal/Media.antt =====
-- crates/clift-core/src/universal/media.rs: which media types are carried, and whether a file name
-- agrees with one.
use clift.Base.{
  ℕ, Bool, true, false, ◌||◌, Option, none, some, List, [], ◌∷◌, if◌then◌else◌, ◌==◌, Str, str_eq,
  codes, eqb, Result, ok, err,
}
use clift.Base.Text.{trim, trim_start_by, to_lower, is_some}
use clift.Base.Utf8.{from_utf8}
use clift.Domain.SafeName.{extension}
use clift.Error.{CliftError, ErrorKind, relay_error}

abbrev pub Row : Type 0
Row = Str × List Str

abbrev row : Str → List Str → Row
row media_type extensions = (media_type, extensions)

-- `CARRIED`
abbrev pub carried : List Row
carried =
    row (codes "image/png") (codes "png" ∷ [])
    ∷ row (codes "image/jpeg") (codes "jpg" ∷ codes "jpeg" ∷ [])
    ∷ row (codes "image/gif") (codes "gif" ∷ [])
    ∷ row (codes "image/webp") (codes "webp" ∷ [])
    ∷ row (codes "image/tiff") (codes "tif" ∷ codes "tiff" ∷ [])
    ∷ row (codes "image/heic") (codes "heic" ∷ [])
    ∷ row (codes "image/svg+xml") (codes "svg" ∷ [])
    ∷ row (codes "application/pdf") (codes "pdf" ∷ [])
    ∷ row (codes "text/plain") (codes "txt" ∷ codes "log" ∷ codes "text" ∷ [])
    ∷ row (codes "text/markdown") (codes "md" ∷ codes "markdown" ∷ [])
    ∷ row (codes "text/csv") (codes "csv" ∷ [])
    ∷ row (codes "application/json") (codes "json" ∷ [])
    ∷ []

-- `contains` of a slice.
unfoldable pub contains : List Str → Str → Bool
contains [] s = false
contains (t ∷ ts) s = t == s || contains ts s

-- The row of a media type, and the first row with an extension.
unfoldable pub row_of : Str → List Row → Option (List Str)
row_of media_type [] = none
row_of media_type ((carries, extensions) ∷ rows) =
    if carries == media_type then some extensions else row_of media_type rows

unfoldable pub type_of : Str → List Row → Option Str
unfolding contains
type_of wanted [] = none
type_of wanted ((media_type, extensions) ∷ rows) =
    if contains extensions wanted then some media_type else type_of wanted rows

unfoldable pub to_ascii_lowercase : Str → Str
to_ascii_lowercase [] = []
to_ascii_lowercase (c ∷ s) = to_lower c ∷ to_ascii_lowercase s

-- The extension as it is looked up: without its dot, in lower case.
unfoldable pub folded : Str → Str
unfolding to_ascii_lowercase trim_start_by
folded dotted = to_ascii_lowercase (trim_start_by (λ c. eqb c b'.') dotted)

unfoldable pub from_extension : Str → Option Str
unfolding folded type_of extension
from_extension name = elim (extension name) [
  | none ↦ none
  | some dotted ↦ type_of (folded dotted) carried
]

-- `media_type.trim().to_ascii_lowercase()`
unfoldable pub normalised : Str → Str
unfolding to_ascii_lowercase trim
normalised media_type = to_ascii_lowercase (trim media_type)

abbrev agrees : Str → List Str → Option Str → Result (Unit {0}) CliftError
agrees name extensions none = ok tt
agrees name extensions (some dotted) =
    if contains extensions (folded dotted)
    then ok tt
    else if is_some (from_extension name)
    then err (relay_error ErrorKind.integrity_failure)
    else ok tt

unfoldable pub check : Str → Str → Result (Unit {0}) CliftError
unfolding row_of contains folded from_extension normalised extension
check media_type name = elim (row_of (normalised media_type) carried) [
  | none ↦ err (relay_error ErrorKind.limit_exceeded)
  | some extensions ↦ agrees name extensions (extension name)
]

-- `PNG_SIGNATURE`
abbrev pub png_signature : List ℕ
png_signature = 0x89 ∷ b'P' ∷ b'N' ∷ b'G' ∷ 0x0d ∷ 0x0a ∷ 0x1a ∷ 0x0a ∷ []

-- `AS_TEXT`
abbrev pub as_text : List Str
as_text =
    codes "text/plain" ∷ codes "text/markdown" ∷ codes "text/csv" ∷ codes "application/json" ∷ []

pub data ClipboardForm : Type 0 where
  image text file_only : ClipboardForm

unfoldable pub starts_with : List ℕ → List ℕ → Bool
starts_with bytes [] = true
starts_with [] (p ∷ prefix) = false
starts_with (b ∷ bytes) (p ∷ prefix) = if eqb b p then starts_with bytes prefix else false

unfoldable pub clipboard_form : Str → List ℕ → ClipboardForm
unfolding normalised starts_with contains from_utf8
clipboard_form media_type bytes =
    if normalised media_type == codes "image/png"
    then if starts_with bytes png_signature then ClipboardForm.image else ClipboardForm.file_only
    else if contains as_text (normalised media_type)
    then if is_some (from_utf8 bytes) then ClipboardForm.text else ClipboardForm.file_only
    else ClipboardForm.file_only
