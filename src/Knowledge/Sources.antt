-- ===== src/Knowledge/Sources.antt =====
-- The sources of the documents in `NotebookManager` of zen_claw/knowledge/notebook.py. A time is the
-- count of its microseconds, in the order of which the ISO texts in UTC stand; 0 is the time of a
-- text that cannot be read.
use zen_claw.Base.{
  ℕ, ◌+◌, String, Bool, true, false, ◌||◌, Option, none, some, List, [], ◌∷◌, ◌==◌, max, ltb, eqb,
  if◌then◌else◌,
}
use zen_claw.Base.Text.{strip}
use zen_claw.Base.Dict.{Dict, get, put, remove}
use Prim.Native.Nat.{Ordering}
use Prim.Native.String.{compare}

pub record Source : Type 0 where
  pub source : String
  pub doc_units : ℕ
  pub created_at : ℕ
  pub metadata : Dict String

-- `data["notebooks"]`
abbrev pub Sources : Type 0
Sources = Dict (Dict Source)

abbrev pub or_no_rows : Option (Dict Source) → Dict Source
or_no_rows none = []
or_no_rows (some rows) = rows

abbrev pub is_source : String → Source → Bool
is_source clean row = strip row.source == clean

-- the row that the loop of `record_source` stops at
unfoldable pub find_source : String → Dict Source → Option String
find_source clean [] = none
find_source clean ((id, row) ∷ rows) =
    if is_source clean row then some id else find_source clean rows

abbrev pub with_units : ℕ → Dict String → Source → Source
with_units units [] row = record row { doc_units = row.doc_units + units }
with_units units (m ∷ metadata) row = record row {
  doc_units = row.doc_units + units;
  metadata = m ∷ metadata;
}

-- the loop stops at the first row with the source: `rows`, those after it, stay as they are
unfoldable pub add_units : String → ℕ → Dict String → Dict Source → Dict Source
add_units clean units metadata [] = []
add_units clean units metadata ((id, row) ∷ rows) =
    let rest = add_units clean units metadata rows in
    if is_source clean row then (id, with_units units metadata row) ∷ rows else (id, row) ∷ rest

-- `latest_created_at`
unfoldable pub latest : Dict Source → ℕ
latest [] = 0
latest ((id, row) ∷ rows) = max row.created_at (latest rows)

unfoldable pub new_source : Dict Source → String → ℕ → Dict String → ℕ → Source
new_source rows clean units metadata now = record {
  source = clean;
  doc_units = units;
  created_at = max now (latest rows + 1);
  metadata = metadata;
}

abbrev pub recorded :
    Dict Source → String → ℕ → Dict String → ℕ → String → Option String → Dict Source × String
recorded rows clean units metadata now fresh (some id) = (add_units clean units metadata rows, id)
recorded rows clean units metadata now fresh none =
    (put rows fresh (new_source rows clean units metadata now), fresh)

-- the rows of one notebook, and the id of the document
unfoldable pub record_row :
    Dict Source → String → ℕ → Dict String → ℕ → String → Dict Source × String
record_row rows clean units metadata now fresh =
    recorded rows clean units metadata now fresh (find_source clean rows)

-- `record_source`, with the clock and the identifier that `uuid4` draws
unfoldable pub record_source :
    Sources → String → String → ℕ → Dict String → ℕ → String → Sources × String
record_source sources notebook_id source units metadata now fresh =
    let clean = strip source in
    let (rows, id) =
      record_row (or_no_rows (get sources notebook_id)) clean units metadata now fresh in
    if clean == "" || eqb units 0 then (sources, "") else (put sources notebook_id rows, id)

-- A document as it is listed and returned.
pub record Listed : Type 0 where
  pub document_id : String
  pub source : String
  pub doc_units : ℕ
  pub created_at : ℕ
  pub metadata : Dict String

abbrev pub listed_of : String → Source → Listed
listed_of id row = record {
  document_id = id;
  source = row.source;
  doc_units = row.doc_units;
  created_at = row.created_at;
  metadata = row.metadata;
}

abbrev text_le : String → String → Bool
text_le a b = elim (compare a b) [ Ordering.gt ↦ false | _ ↦ true ]

-- the order of the keys `(created_at, source, document_id)`
unfoldable pub comes_first : Listed → Listed → Bool
comes_first a b =
    if eqb a.created_at b.created_at
    then if a.source == b.source
      then text_le a.document_id b.document_id
      else text_le a.source b.source
    else ltb a.created_at b.created_at

unfoldable pub insert_listed : Listed → List Listed → List Listed
insert_listed d [] = d ∷ []
insert_listed d (e ∷ rest) =
    let later = insert_listed d rest in if comes_first d e then d ∷ e ∷ rest else e ∷ later

unfoldable pub sort_listed : List Listed → List Listed
sort_listed [] = []
sort_listed (d ∷ rest) = insert_listed d (sort_listed rest)

unfoldable pub all_listed : Dict Source → List Listed
all_listed [] = []
all_listed ((id, row) ∷ rows) = listed_of id row ∷ all_listed rows

-- `list_documents`
unfoldable pub list_documents : Sources → String → List Listed
list_documents sources notebook_id = sort_listed (all_listed (or_no_rows (get sources notebook_id)))

-- the rows without a document; a notebook with none left loses its entry
abbrev pub kept_rows : Sources → String → Dict Source → Sources
kept_rows sources notebook_id [] = remove sources notebook_id
kept_rows sources notebook_id (r ∷ rows) = put sources notebook_id (r ∷ rows)

abbrev pub removed_rows : Sources → String → String → Option (Dict Source) → Sources × Option Source
removed_rows sources notebook_id id none = (sources, none)
removed_rows sources notebook_id id (some rows) =
    (kept_rows sources notebook_id (remove rows id), get rows id)

-- `remove_document`: what was there; `none` stands for the answer with no source and no units
unfoldable pub remove_document : Sources → String → String → Sources × Option Source
remove_document sources notebook_id document_id =
    let id = strip document_id in
    if id == ""
    then (sources, none)
    else removed_rows sources notebook_id id (get sources notebook_id)

-- `clear_documents`
unfoldable pub clear_documents : Sources → String → Sources × List Listed
clear_documents sources notebook_id =
    (remove sources notebook_id, all_listed (or_no_rows (get sources notebook_id)))
