-- ===== src/Tests/Requests.antt =====
-- logs/logs.go on a log of two requests.
use qoder_2api_go.Prelude.{
  ℕ, ◌-◌, ◌*◌, ◌/◌, ◌≡◌, ◌↔◌, refl, true, false, none, some, List, [], ◌∷◌, arith, filter, take,
  drop, length,
}
use qoder_2api_go.Prelude.Int.{pos}
use qoder_2api_go.Text.{Text, codes}
use qoder_2api_go.Logs.Entry.{LogEntry, Filter}
use qoder_2api_go.Logs.Fold.{contains_fold}
use qoder_2api_go.Logs.Fold.Correct.{Occurs, contains_fold_iff}
use qoder_2api_go.Logs.Recorder.{Recorder, new_recorder, prune, stamp, add_entry, day, second}
use qoder_2api_go.Logs.Query.{query, matched, page_of, page_size_of, half_word}
use qoder_2api_go.Logs.Pages.{query-page, query-panics, pages_cover, collect}
use qoder_2api_go.Logs.Invariant.{IsValid, run, run-restored-IsValid, records}
use qoder_2api_go.Logs.Retention.{last, fresh, prune-eq}
use qoder_2api_go.Logs.Persist.{System, Event, step, steps, boot, IsFlushed, flush-saves}

abbrev entry_of : ℕ → Text → ℕ → LogEntry ℕ
entry_of id model created_at = record {
  id = id;
  key_id = codes "k";
  key_note = [];
  model = model;
  stream = true;
  account_id = codes "a1";
  account_note = [];
  region = codes "cn";
  prompt_tokens = pos 10;
  completion_tokens = pos 5;
  total_tokens = pos 15;
  credits = 1;
  duration_ms = pos 100;
  status_code = 200;
  error_msg = [];
  created_at = created_at;
}

abbrev old_entry : LogEntry ℕ
old_entry = entry_of 1 (codes "Auto") 10

abbrev new_entry : LogEntry ℕ
new_entry = entry_of 2 (codes "lite") 1_000_000

abbrev two_entries : Recorder ℕ
two_entries = record {
  entries = old_entry ∷ new_entry ∷ [];
  next_id = 3;
  persist = true;
  dirty = false;
  retention = day;
  max_entries = 100;
}

abbrev any_entry : Filter
any_entry = record { model = []; key_id = []; status = pos 0; page = pos 2; page_size = pos 1 }

-- The second page of one entry holds the older of the two.
query-page_example :
    query two_entries any_entry
    ≡ some (record {
      logs =
          take (page_size_of any_entry) (
            drop
              ((page_of any_entry - 1) * page_size_of any_entry)
              (matched two_entries any_entry));
      total = length (matched two_entries any_entry);
      page = page_of any_entry;
      page_size = page_size_of any_entry;
    })
unfolding page_of page_size_of
query-page_example = query-page two_entries any_entry (omega arith)

pages_cover_example : collect two_entries any_entry 2 ≡ matched two_entries any_entry
unfolding filter page_size_of qoder_2api_go.Logs.Query.matches
pages_cover_example = pages_cover two_entries any_entry 2 (omega arith) (omega arith)

-- The page number 2 ^ 62 with pages of four entries.
abbrev far_page : Filter
far_page = record any_entry { page = pos 4_611_686_018_427_387_904; page_size = pos 3 }

query-panics_example : query two_entries far_page ≡ none
unfolding page_of page_size_of
query-panics_example = query-panics two_entries far_page (omega arith) (omega arith)

run-restored-IsValid_example : IsValid (
    run
      (new_recorder (some (old_entry ∷ new_entry ∷ [])) (pos 1) (pos 100) (day * 12))
      (records (entry_of 0 (codes "auto") 0) (day * 12) (day * 12) ∷ []))
run-restored-IsValid_example =
    run-restored-IsValid (old_entry ∷ new_entry ∷ []) 3 (pos 1) (pos 100) (day * 12)
      (records (entry_of 0 (codes "auto") 0) (day * 12) (day * 12) ∷ [])
      (omega arith, (omega arith, omega arith))

-- After twelve days the older entry is past the retention of one day.
prune-eq_example :
    (prune two_entries (day * 12)).entries
    ≡ last 100 (filter (fresh ((day * 12 - day) / second)) (old_entry ∷ new_entry ∷ []))
prune-eq_example =
    prune-eq two_entries (day * 12) ((omega arith, tt), (tt, tt)) (omega arith) (omega arith)

contains_fold_iff_example :
    (contains_fold (codes "qoder-AUTO") (codes "auto") ≡ true)
    ↔ Occurs (codes "qoder-AUTO") (codes "auto")
contains_fold_iff_example = contains_fold_iff (codes "qoder-AUTO") (codes "auto")

-- A request is recorded while a save is under way, and that save fails.
abbrev busy : List (Event ℕ)
busy =
    Event.flush_begins
    ∷ Event.records (entry_of 0 (codes "auto") 0) (day * 12) (day * 12)
    ∷ Event.flush_ends false
    ∷ []

flush-saves_example :
    let s = steps (boot (old_entry ∷ []) (pos 90) (pos 100) day) busy in
    IsFlushed s (step (step s Event.flush_begins) (Event.flush_ends true))
unfolding steps step qoder_2api_go.Logs.Persist.finish_save boot
    qoder_2api_go.Logs.Persist.start_save qoder_2api_go.Logs.Recorder.begin_flush new_recorder prune
flush-saves_example = flush-saves (old_entry ∷ []) (pos 90) (pos 100) day busy refl
