-- ===== src/Logs/Pages.antt =====
-- logs/logs.go: what the pages of a query hold.
use qoder_2api_go.Prelude.{
  ℕ, zero, suc, ◌+◌, ◌-◌, ◌*◌, ◌≤◌, ◌<◌, ◌≡◌, refl, sym, ap, ◌∙◌, Option, none, some, List, [],
  ◌++◌, arith, length, take, drop, take_all, drop_all, take_nil, take-add, length-drop, dec_lt,
}
use qoder_2api_go.Prelude.Int.{pos, negsuc}
use qoder_2api_go.Logs.Entry.{LogEntry, Filter, LogPage}
use qoder_2api_go.Logs.Recorder.{Recorder}
use qoder_2api_go.Logs.Query.{
  to_int, page_of, page_size_of, matched, matches, slice, respond, page_from, query, word,
  half_word,
}

to_int-small : (n : ℕ) → n < half_word → to_int n ≡ pos n
unfolding to_int
to_int-small n h = ground arith

to_int-large : (n : ℕ) → half_word ≤ n → n < word → (m : ℕ) × (to_int n ≡ negsuc m)
unfolding to_int
to_int-large n h k = (word - n - 1, ground arith)

pub page_size_bounds : (f : Filter) → (1 ≤ page_size_of f) × (page_size_of f ≤ 100)
unfolding page_size_of
page_size_bounds f = ground arith

-- A page of at least one entry starts before it ends.
positive_step : (n size : ℕ) → 1 ≤ size → suc n * size ≤ half_word → n * size < half_word
positive_step n size h k = omega arith

page_of_pos : (f : Filter) (n : ℕ) → page_of (record f { page = pos (suc n) }) - 1 ≡ n
unfolding page_of
page_of_pos f n = ground arith

module _ {R : Type 0} where
  slice-within :
      (xs : List (LogEntry R)) (s e : ℕ)
      → s ≤ e
      → e ≤ length xs
      → slice xs (pos s) e ≡ some (take (e - s) (drop s xs))
  unfolding slice
  slice-within xs s e h k = ground arith

  page_from-past :
      (xs : List (LogEntry R)) (start size : ℕ)
      → length xs < start
      → page_from xs (pos start) size ≡ slice xs (pos (length xs)) (length xs)
  unfolding page_from
  page_from-past xs start size h = ground arith

  page_from-last :
      (xs : List (LogEntry R)) (start size : ℕ)
      → start ≤ length xs
      → length xs < start + size
      → page_from xs (pos start) size ≡ slice xs (pos start) (length xs)
  unfolding page_from
  page_from-last xs start size h k = ground arith

  page_from-full :
      (xs : List (LogEntry R)) (start size : ℕ)
      → start + size ≤ length xs
      → page_from xs (pos start) size ≡ slice xs (pos start) (start + size)
  unfolding page_from
  page_from-full xs start size h = ground arith

  page_from-negsuc : (xs : List (LogEntry R)) (m size : ℕ) → page_from xs (negsuc m) size ≡ none
  unfolding page_from slice
  page_from-negsuc xs m size = ground arith

  -- The entries of a page; a panic has none.
  abbrev logs_of : Option (LogPage R) → List (LogEntry R)
  logs_of none = []
  logs_of (some p) = p.logs

  -- A page from a start that did not wrap around.
  page_from-pos :
      (xs : List (LogEntry R)) (start size : ℕ)
      → page_from xs (pos start) size ≡ some (take size (drop start xs))
  page_from-pos xs start size = elim (dec_lt (length xs) start) [
    | yes past ↦
        let ends : drop start xs ≡ [] = drop_all start xs (omega arith) in
        let none_left : length xs - length xs ≡ 0 = omega arith in
        page_from-past xs start size past
        ∙ slice-within xs (length xs) (length xs) (omega arith) (omega arith)
        ∙ rw (ends, none_left) (ap some (sym (take_nil size)))
    | no within ↦ elim (dec_lt (length xs) (start + size)) [
      | yes last ↦
          page_from-last xs start size (omega arith) last
          ∙ slice-within xs start (length xs) (omega arith) (omega arith)
          ∙ ap some (
              take_all _ _ (omega (arith, length-drop start xs))
              ∙ sym (take_all _ _ (omega (arith, length-drop start xs))))
      | no full ↦
          let span : start + size - start ≡ size = omega arith in
          page_from-full xs start size (omega arith)
          ∙ slice-within xs start (start + size) (omega arith) (omega arith)
          ∙ rw span refl
    ]
  ]

  -- A query whose page starts below 2 ^ 63 returns the entries of that page among those that match,
  -- newest first, and the number of all that match.
  pub query-page :
      (r : Recorder R) (f : Filter)
      → (page_of f - 1) * page_size_of f < half_word
      → query r f
        ≡ some (record {
          logs = take (page_size_of f) (drop ((page_of f - 1) * page_size_of f) (matched r f));
          total = length (matched r f);
          page = page_of f;
          page_size = page_size_of f;
        })
  unfolding query respond
  query-page r f h =
      let size = page_size_of f in
      let start = (page_of f - 1) * size in
      ap (respond (length (matched r f)) (page_of f) size) (
        ap (λ s. page_from (matched r f) s size) (to_int-small start h)
        ∙ page_from-pos (matched r f) start size)

  -- A page number that takes the start of the page past 2 ^ 63, and below 2 ^ 64, makes the query
  -- panic.
  pub query-panics :
      (r : Recorder R) (f : Filter)
      → half_word ≤ (page_of f - 1) * page_size_of f
      → (page_of f - 1) * page_size_of f < word
      → query r f ≡ none
  unfolding query respond
  query-panics r f h k =
      let size = page_size_of f in
      let (m, e) = to_int-large ((page_of f - 1) * size) h k in
      ap (respond (length (matched r f)) (page_of f) size)
        (ap (λ s. page_from (matched r f) s size) e ∙ page_from-negsuc (matched r f) m size)

  -- The entries of the first pages, one page after another.
  pub collect : Recorder R → Filter → ℕ → List (LogEntry R)
  collect r f zero = []
  collect r f (suc n) = collect r f n ++ logs_of (query r (record f { page = pos (suc n) }))

  logs_of_page :
      (r : Recorder R) (f : Filter) (n : ℕ)
      → suc n * page_size_of f ≤ half_word
      → logs_of (query r (record f { page = pos (suc n) }))
        ≡ take (page_size_of f) (drop (n * page_size_of f) (matched r f))
  unfolding matches page_size_of
  logs_of_page r f n h =
      let f' = record f { page = pos (suc n) } in
      let size = page_size_of f in
      let start : (page_of f' - 1) * size ≡ n * size = ap (λ k. k * size) (page_of_pos f n) in
      let fits : (page_of f' - 1) * size < half_word =
        rw start (positive_step n (page_size_of f) (page_size_bounds f).0 h) in
      ap logs_of (query-page r f' fits) ∙ ap (λ k. take size (drop k (matched r f))) start

  collect-take :
      (r : Recorder R) (f : Filter) (n : ℕ)
      → n * page_size_of f ≤ half_word
      → collect r f n ≡ take (n * page_size_of f) (matched r f)
  unfolding collect
  collect-take r f zero h =
      let e : 0 ≡ 0 * page_size_of f = omega arith in ap (λ k. take k (matched r f)) e
  collect-take r f (suc n) h =
      let size = page_size_of f in
      let e : n * size + size ≡ suc n * size = omega arith in
      ap (λ l. l ++ logs_of (query r (record f { page = pos (suc n) })))
        (collect-take r f n (omega arith))
      ∙ ap (λ l. take (n * size) (matched r f) ++ l) (logs_of_page r f n h)
      ∙ take-add (n * size) size (matched r f)
      ∙ ap (λ k. take k (matched r f)) e

  -- The pages of a query hold each match once: one after another, as many as are needed, they are
  -- the entries that match, newest first, where they stay below 2 ^ 63.
  pub pages_cover :
      (r : Recorder R) (f : Filter) (n : ℕ)
      → length (matched r f) ≤ n * page_size_of f
      → n * page_size_of f ≤ half_word
      → collect r f n ≡ matched r f
  pages_cover r f n h k = collect-take r f n k ∙ take_all (n * page_size_of f) (matched r f) h
