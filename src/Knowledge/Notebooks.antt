-- ===== src/Knowledge/Notebooks.antt =====
-- `Notebook` and `NotebookManager` of zen_claw/knowledge/notebook.py: the index of the notebooks.
-- Times are texts here, since the index only keeps them.
use zen_claw.Base.{
  ℕ, ◌+◌, ◌-◌, suc, String, Bool, not, ◌&&◌, ◌||◌, Option, none, some, List, [], ◌∷◌, ◌++◌, ◌==◌,
  find_first, update_first, if◌then◌else◌,
}
use zen_claw.Base.Int.{ℤ, pos, negsuc}
use zen_claw.Base.Text.{strip, lower, norm}
use zen_claw.Base.Strings.{replace}
use Prim.Native.Nat.{Ordering}
use Prim.Native.String.{compare}

pub record Notebook : Type 0 where
  pub id : String
  pub name : String
  pub created_at : String
  pub doc_count : ℕ
  pub store_backend : String
  pub retention_max_documents : ℕ
  pub retention_max_age_days : ℕ

-- `_normalize_store_backend`
unfoldable pub normalize_store_backend : String → String
normalize_store_backend value =
    let backend = norm value in if backend == "chroma" || backend == "memory" then backend else ""

unfoldable pub insert_by_name : Notebook → List Notebook → List Notebook
insert_by_name nb [] = nb ∷ []
insert_by_name nb (other ∷ rest) = elim (compare (lower nb.name) (lower other.name)) [
  | Ordering.gt ↦ other ∷ insert_by_name nb rest
  | _ ↦ nb ∷ other ∷ rest
]

-- `list`: sorted by the name in lower case; equal names keep their order
unfoldable pub list : List Notebook → List Notebook
list [] = []
list (nb ∷ rest) = insert_by_name nb (list rest)

-- `nb.id.lower() == key or nb.name.lower() == key`
unfoldable pub answers_to : String → Notebook → Bool
answers_to key nb = lower nb.id == key || lower nb.name == key

-- `get`
unfoldable pub get_notebook : List Notebook → String → Option Notebook
get_notebook rows name_or_id = find_first (answers_to (norm name_or_id)) (list rows)

-- What `create` and the setters give: an error is a ValueError.
pub data Made : Type 0 where
  made : Notebook → Made
  empty_name already_exists not_found : Made

unfoldable pub id_of : String → String
id_of clean = lower (replace clean " " "_")

unfoldable pub fresh_notebook : String → String → ℕ → ℕ → String → Notebook
fresh_notebook clean store_backend max_documents max_age_days now = record {
  id = id_of clean;
  name = clean;
  created_at = now;
  doc_count = 0;
  store_backend = normalize_store_backend store_backend;
  retention_max_documents = max_documents;
  retention_max_age_days = max_age_days;
}

abbrev create_found : List Notebook → Notebook → Option Notebook → List Notebook × Made
create_found rows nb (some found) = (rows, already_exists)
create_found rows nb none = (rows ++ nb ∷ [], made nb)

-- `create`
unfoldable pub create_notebook :
    List Notebook → String → String → ℕ → ℕ → String → List Notebook × Made
create_notebook rows name store_backend max_documents max_age_days now =
    let clean = strip name in
    if clean == ""
    then (rows, empty_name)
    else create_found rows (fresh_notebook clean store_backend max_documents max_age_days now)
        (get_notebook rows clean)

abbrev or_create : Option Notebook → List Notebook → List Notebook × Made → List Notebook × Made
or_create (some found) rows created = (rows, made found)
or_create none rows created = created

-- `get_or_create`
unfoldable pub get_or_create_notebook :
    List Notebook → String → String → ℕ → ℕ → String → List Notebook × Made
get_or_create_notebook rows name store_backend max_documents max_age_days now =
    or_create (get_notebook rows name) rows
      (create_notebook rows name store_backend max_documents max_age_days now)

-- `needle and (row_id == needle or row_name == needle)`
unfoldable pub is_named : String → Notebook → Bool
is_named needle row = not (needle == "") && (norm row.id == needle || norm row.name == needle)

abbrev written : Option Notebook → (Notebook → Notebook) → Made
written none f = not_found
written (some row) f = made (f row)

-- the loop that the two setters share
unfoldable pub set_first : List Notebook → String → (Notebook → Notebook) → List Notebook × Made
set_first rows notebook_id f = (
  update_first (is_named (norm notebook_id)) f rows,
  written (find_first (is_named (norm notebook_id)) rows) f,
)

-- `set_store_backend`
unfoldable pub set_store_backend : List Notebook → String → String → List Notebook × Made
set_store_backend rows notebook_id store_backend =
    set_first rows notebook_id
      λ row. record row { store_backend = normalize_store_backend store_backend }

abbrev or_kept : Option ℕ → ℕ → ℕ
or_kept none kept = kept
or_kept (some n) kept = n

-- `set_retention_policy`
unfoldable pub set_retention_policy :
    List Notebook → String → Option ℕ → Option ℕ → List Notebook × Made
set_retention_policy rows notebook_id max_documents max_age_days = set_first rows notebook_id λ row.
    record row {
      retention_max_documents = or_kept max_documents row.retention_max_documents;
      retention_max_age_days = or_kept max_age_days row.retention_max_age_days;
    }

-- `max(0, count + delta)`
abbrev moved : ℕ → ℤ → ℕ
moved count (pos n) = count + n
moved count (negsuc n) = count - suc n

-- `bump_doc_count`
unfoldable pub bump_doc_count : List Notebook → String → ℤ → List Notebook
bump_doc_count rows notebook_id delta =
    update_first (λ row. lower row.id == lower notebook_id)
      (λ row. record row { doc_count = moved row.doc_count delta }) rows
