-- ===== src/Indexer/Extract.antt =====
-- How internal/indexer/indexer.go gets the text of a file: the choice of the extractor, the cap of
-- `extractRaw`, the texts in a ZIP of XML files, and the printable strings of old Office files. The
-- readers of PDF, ZIP and XML are outside: their output is an argument here.
use filesearch.Base.{
  ℕ, ◌+◌, ◌≤◌, ◌<◌, ◌≡◌, refl, Bool, true, false, ◌&&◌, ◌||◌, ◌==◌, ltb, leb, Option, none, some,
  List, [], ◌∷◌, ◌++◌, Text, codes, text_eq, has_prefix, is_empty, to_lower, ext, trim_space,
  length, length-append, All, All-append, arith, inl, inr, Bool-cases, if◌then◌else◌,
}
use filesearch.Base.Result.{Error, Result, ok, err}
use filesearch.Indexer.Policy.{max_index_bytes}

pub data Extractor : Type 0 where
  pdf markdown html docx xlsx pptx odf rtf legacy_office raw : Extractor

-- The switch of `extractText` on the extension, in lower case.
abbrev extractor_of : Text → Extractor
extractor_of e =
    if text_eq e (codes ".pdf")
    then pdf
    else if text_eq e (codes ".md")
    then markdown
    else if text_eq e (codes ".html") || text_eq e (codes ".htm")
    then html
    else if text_eq e (codes ".docx")
    then docx
    else if text_eq e (codes ".xlsx")
    then xlsx
    else if text_eq e (codes ".pptx")
    then pptx
    else if text_eq e (codes ".odt") || (text_eq e (codes ".ods") || text_eq e (codes ".odp"))
    then odf
    else if text_eq e (codes ".rtf")
    then rtf
    else if text_eq e (codes ".doc") || (text_eq e (codes ".xls") || text_eq e (codes ".ppt"))
    then legacy_office
    else if text_eq e (codes ".xml")
    then html
    else raw

unfoldable pub extract_text : (Extractor → Text → Result Text) → Text → Result Text
extract_text extract path = extract (extractor_of (to_lower (ext path))) path

-- The loop of `extractRaw` over the lines of the scanner: the text so far has `size` bytes. The
-- flag says that the cap was met.
unfoldable pub raw_lines : ℕ → List Text → Text × Bool
raw_lines size [] = ([], false)
raw_lines size (line ∷ lines) =
    let next = size + length line + 1 in
    let rest = raw_lines next lines in
    if leb max_index_bytes next
    then (line ++ b'\n' ∷ [], true)
    else (line ++ b'\n' ∷ rest.0, rest.1)

-- extractRaw on an open file: the lines that the scanner yields and the error at which it stops, if
-- any, which is seen only where the cap was not met.
unfoldable pub extract_raw : List Text → Option Error → Result Text
unfolding raw_lines
extract_raw lines scan_error =
    let (text, capped) = raw_lines 0 lines in
    elim scan_error [ none ↦ ok text | some e ↦ if capped then ok text else err (codes "scan" ∷ e) ]

-- A token of the XML reader; `none` is one that is no text. The list ends at an error or the end.
unfoldable pub xml_to_text : List (Option Text) → Text
xml_to_text [] = []
xml_to_text (none ∷ tokens) = xml_to_text tokens
xml_to_text (some data_ ∷ tokens) =
    let rest = xml_to_text tokens in
    let text = trim_space data_ in if is_empty text then rest else text ++ b' ' ∷ rest

-- A file of an archive: its name, and the tokens in it where it opens.
unfoldable pub extract_zip_xml : (Text → Bool) → List (Text × Option (List (Option Text))) → Text
unfolding xml_to_text
extract_zip_xml match_ [] = []
extract_zip_xml match_ ((name, opened) ∷ files) =
    let rest = extract_zip_xml match_ files in
    if match_ name
    then (elim opened [ none ↦ rest | some tokens ↦ xml_to_text tokens ++ b'\n' ∷ rest ])
    else rest

-- The files of an archive that hold text.
abbrev match_docx : Text → Bool
match_docx name = text_eq name (codes "word/document.xml")

abbrev match_xlsx : Text → Bool
match_xlsx name =
    text_eq name (codes "xl/sharedStrings.xml") || has_prefix name (codes "xl/worksheets/")

abbrev match_pptx : Text → Bool
match_pptx name = has_prefix name (codes "ppt/slides/slide") || has_prefix name (codes "ppt/notes/")

abbrev match_odf : Text → Bool
match_odf name = text_eq name (codes "content.xml")

abbrev pub is_printable : ℕ → Bool
is_printable b = (leb 32 b && ltb b 127) || (b == 10 || (b == 13 || b == 9))

-- The loop of `extractLegacyOffice`, with the run of printable bytes before the next one.
unfoldable pub printable_runs : Text → Text → Text
printable_runs run [] = if leb 6 (length run) then run else []
printable_runs run (b ∷ data_) =
    let longer = printable_runs (run ++ b ∷ []) data_ in
    let rest = printable_runs [] data_ in
    if is_printable b then longer else if leb 6 (length run) then run ++ b'\n' ∷ rest else rest

-- extractLegacyOffice on the bytes of a file
unfoldable pub extract_legacy_office : Text → Text
unfolding printable_runs
extract_legacy_office data_ = printable_runs [] data_

raw_lines-bounded :
    (longest : ℕ) (lines : List Text) (size : ℕ)
    → All (λ line. length line ≤ longest) lines
    → size < max_index_bytes
    → size + length (raw_lines size lines).0 ≤ max_index_bytes + longest
unfolding raw_lines
raw_lines-bounded longest [] size h lt = omega arith
raw_lines-bounded longest (line ∷ lines) size (short, h) lt =
    elim (Bool-cases (leb max_index_bytes (size + length line + 1))) [
      | inl over ↦ rw over (omega (arith, length-append line (b'\n' ∷ []), short, lt))
      | inr under ↦ rw under (
          omega (
            arith,
            length-append line (b'\n' ∷ (raw_lines (size + length line + 1) lines).0),
            raw_lines-bounded longest lines (size + length line + 1) h (ground arith),
          ))
    ]

-- The text of a file whose lines have at most `longest` bytes has at most the cap and one such
-- line.
pub extract_raw-bounded :
    (longest : ℕ) (lines : List Text) (scan_error : Option Error) (text : Text)
    → All (λ line. length line ≤ longest) lines
    → extract_raw lines scan_error ≡ ok text
    → length text ≤ max_index_bytes + longest
unfolding extract_raw
extract_raw-bounded longest lines scan_error text h e =
    let bound = raw_lines-bounded longest lines 0 h (omega arith) in ground (arith, bound)

abbrev pub IsPrintable : ℕ → Type 0
IsPrintable b = is_printable b ≡ true

printable_runs-IsPrintable :
    (data_ run : Text) → All IsPrintable run → All IsPrintable (printable_runs run data_)
unfolding printable_runs
printable_runs-IsPrintable [] run h = elim (Bool-cases (leb 6 (length run))) [
  | inl long ↦ rw long h
  | inr short ↦ rw short tt
]
printable_runs-IsPrintable (b ∷ data_) run h = elim (Bool-cases (is_printable b)) [
  | inl good ↦ rw good (
      printable_runs-IsPrintable data_ (run ++ b ∷ [])
        (All-append IsPrintable run (b ∷ []) h (good, tt)))
  | inr bad ↦ elim (Bool-cases (leb 6 (length run))) [
    | inl long ↦
        rw (bad, long)
          (All-append IsPrintable run (b'\n' ∷ printable_runs [] data_) h
            (refl, printable_runs-IsPrintable data_ [] tt))
    | inr short ↦ rw (bad, short) (printable_runs-IsPrintable data_ [] tt)
  ]
]

-- The text of an old Office file is printable, whatever its bytes.
pub extract_legacy_office-IsPrintable :
    (data_ : Text) → All IsPrintable (extract_legacy_office data_)
unfolding extract_legacy_office
extract_legacy_office-IsPrintable data_ = printable_runs-IsPrintable data_ [] tt
