-- ===== src/Cleaning.antt =====
-- clientapi/v1: the loop of cleanStrings in nodecredential.go and of NormalizeControlPlaneURLs in
-- api.go, one program over two ways to bring a value to its form.
pub mod Laws
use client_api.Prelude.{Bytes, bytes_eq, ◌||◌, List, [], ◌∷◌, ◌==◌, contains, if◌then◌else◌}
use client_api.Go.Strings.{trim_space, trim_right_byte}

-- The forms of the values that are not empty and not among those seen, each once.
unfoldable pub keep_new : (Bytes → Bytes) → List Bytes → List Bytes → List Bytes
keep_new form seen [] = []
keep_new form seen (raw ∷ values) =
    let value = form raw in
    let skipped = keep_new form seen values in
    let kept = value ∷ keep_new form (value ∷ seen) values in
    if value == [] || contains value seen then skipped else kept

-- cleanStrings
unfoldable pub clean_strings : List Bytes → List Bytes
clean_strings values = keep_new trim_space [] values

abbrev pub url_form : Bytes → Bytes
url_form raw = trim_right_byte b'/' (trim_space raw)

-- NormalizeControlPlaneURLs
unfoldable pub normalize_control_plane_urls : List Bytes → List Bytes
normalize_control_plane_urls urls = keep_new url_form [] urls
