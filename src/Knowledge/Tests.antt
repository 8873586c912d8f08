-- ===== src/Knowledge/Tests.antt =====
-- Runs of the reranker, and instances of its theorems.
use zen_claw.Base.{
  ℕ, ◌≤◌, String, ◌≡◌, refl, Bool, none, some, List, [], ◌∷◌, ◌==◌, max, min, find_first,
  update_first, length, count,
}
use mathlib.Core.Option
use zen_claw.Knowledge.Rerank.{
  Answer, is_seen, extract, parse_ranking, pick, nth, last, mentioned, seen_after, unmentioned,
  reranked, apply_ranking, rerank,
}
use zen_claw.Knowledge.Notebooks.{
  create_notebook, id_of, fresh_notebook, get_notebook, answers_to, list, insert_by_name,
  normalize_store_backend, made, set_retention_policy, set_first, is_named, bump_doc_count,
}
use zen_claw.Knowledge.Sources.{
  Source, Sources, or_no_rows, find_source, latest, new_source, record_row, record_source,
  all_listed, list_documents, remove_document,
}
use zen_claw.Knowledge.Order.{Reached, start, record_step, remove_step, list_documents-Reached}
use zen_claw.Base.Int.{negsuc}
use zen_claw.Base.Text.{strip, lower, norm}
use zen_claw.Base.Strings.{replace}
use zen_claw.Base.Dict.{get, put}
use zen_claw.Knowledge.Passages.{count-reranked, rerank_sound}

abbrev passages : List String
passages = "a" ∷ "b" ∷ "c" ∷ "d" ∷ []

-- an index twice, one out of range, one that is no number
abbrev answer : Answer
answer = record { whole = some 3 ∷ some 3 ∷ some 9 ∷ none ∷ some 1 ∷ []; embedded = [] }

rerank_runs : rerank passages 3 (some answer) ≡ "c" ∷ "a" ∷ "b" ∷ []
unfolding rerank parse_ranking extract is_seen apply_ranking reranked mentioned pick nth seen_after
    unmentioned
rerank_runs = refl

count-reranked_example :
    Option.map (count (λ s. s == "b")) (reranked passages (parse_ranking answer 4)) ≡ some 1
unfolding count
count-reranked_example = count-reranked (λ s. s == "b") passages answer

-- a number out of range raises, and 0 is the last passage
pick_out_of_range :
    (reranked passages (3 ∷ 9 ∷ []) ≡ none)
    × (reranked passages (0 ∷ []) ≡ some ("d" ∷ "a" ∷ "b" ∷ "c" ∷ "d" ∷ []))
unfolding reranked mentioned pick nth last is_seen seen_after unmentioned
pick_out_of_range = (refl, refl)

rerank_sound_example :
    (length (rerank passages 3 (some answer)) ≡ min (max 1 3) (length passages))
    × ((p : String → Bool) → count p (rerank passages 3 (some answer)) ≤ count p passages)
rerank_sound_example = rerank_sound passages 3 (some answer)

-- the clock goes back between the two documents
abbrev two_documents : Sources
two_documents =
    (record_source (record_source [] "n" " a.md " 3 [] 50 "x").0 "n" "b.md" 1 [] 20 "y").0

abbrev doc_sources : List (String × Source) → List (String × ℕ)
doc_sources [] = []
doc_sources ((id, row) ∷ rows) = (id, row.created_at) ∷ doc_sources rows

two_documents_at :
    get two_documents "n"
    ≡ some (
        ("x", record { source = "a.md"; doc_units = 3; created_at = 50; metadata = [] })
        ∷ ("y", record { source = "b.md"; doc_units = 1; created_at = 51; metadata = [] })
        ∷ [])
unfolding record_source record_row find_source new_source latest get put strip
two_documents_at = refl

two_documents-Reached : Reached two_documents
unfolding record_source record_row find_source new_source latest get put strip
two_documents-Reached =
    record_step "n" "b.md" 1 [] 20 "y" refl (record_step "n" " a.md " 3 [] 50 "x" refl start)

list_documents-Reached_example :
    list_documents (remove_document two_documents "n" "x").0 "n"
    ≡ all_listed (or_no_rows (get (remove_document two_documents "n" "x").0 "n"))
list_documents-Reached_example =
    list_documents-Reached (remove_step "n" "x" two_documents-Reached) "n"

-- Two names that differ in a space give two notebooks with one identifier.
same_id : id_of "a_b" ≡ id_of "a b"
unfolding id_of replace
same_id = refl

created_twice :
    (create_notebook (create_notebook [] "a_b" "Chroma " 0 0 "t").0 "a b" "" 0 0 "u").1
    ≡ made record {
      id = "a_b";
      name = "a b";
      created_at = "u";
      doc_count = 0;
      store_backend = "";
      retention_max_documents = 0;
      retention_max_age_days = 0;
    }
unfolding create_notebook id_of fresh_notebook get_notebook answers_to list insert_by_name
    normalize_store_backend strip lower norm replace find_first
created_twice = refl

-- the writes change the notebook that the identifier or the name answers to
policy_set :
    let rows = (create_notebook [] "My Book" "chroma" 0 0 "t").0 in
    bump_doc_count (set_retention_policy rows " my book" none (some 7)).0 "MY_BOOK" (negsuc 4)
    ≡ record {
      id = "my_book";
      name = "My Book";
      created_at = "t";
      doc_count = 0;
      store_backend = "chroma";
      retention_max_documents = 0;
      retention_max_age_days = 7;
    }
      ∷ []
unfolding create_notebook id_of fresh_notebook get_notebook answers_to list insert_by_name
    normalize_store_backend strip lower norm replace find_first update_first set_retention_policy
    set_first is_named bump_doc_count
policy_set = refl
