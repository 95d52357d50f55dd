-- ===== src/Export/Reading.antt =====
-- The counters are read back from an export by its layout.
use nexus_task.Prelude.{
  ℕ, ◌<◌, ◌≡◌, refl, ◌∙◌, ap, arith, Bool, true, false, not, ◌&&◌, List, [], ◌∷◌, ◌++◌, Option,
  none, some, if◌then◌else◌, ◌=ℕ◌, =ℕ_iff, word,
}
use nexus_task.Text.{Bytes, show_number, read_digits, read-show_number, Stops, is_digit}
use nexus_task.Monitor.{Metrics}
use nexus_task.Monitor.Snapshot.{MetricsSnapshot, no_metrics, get_metrics}
use nexus_task.Export.{
  Piece, words, number, stream, json_pieces, prometheus_pieces, csv_pieces, to_prometheus,
}

-- `s` off the front of a text.
strip : Bytes → Bytes → Option Bytes
strip [] text = some text
strip (c ∷ s) [] = none
strip (c ∷ s) (d ∷ text) = let rest = strip s text in if c =ℕ d then rest else none

-- The numbers in a text that has this layout.
read_layout : List Piece → Bytes → Option (List ℕ)
unfolding strip
read_layout [] [] = some []
read_layout [] (c ∷ text) = none
read_layout (words s ∷ ps) text = elim (strip s text) [
  | none ↦ none
  | some rest ↦ read_layout ps rest
]
read_layout (number _ ∷ ps) text =
    let (n, rest) = read_digits 0 text in
    elim (read_layout ps rest) [ none ↦ none | some ns ↦ some (n ∷ ns) ]

abbrev numbers : List Piece → List ℕ
numbers [] = []
numbers (words s ∷ ps) = numbers ps
numbers (number n ∷ ps) = n ∷ numbers ps

-- Behind each number stands a text that begins, with no digit.
abbrev begins_apart : Bytes → Bool
begins_apart [] = false
begins_apart (c ∷ s) = not (is_digit c)

abbrev separated : List Piece → Bool
separated [] = true
separated (words s ∷ ps) = separated ps
separated (number n ∷ []) = true
separated (number n ∷ words s ∷ ps) = begins_apart s && separated ps
separated (number n ∷ number m ∷ ps) = false

abbrev pub InWords : List ℕ → Type 0
InWords [] = Unit
InWords (n ∷ ns) = (n < word) × InWords ns

strip-append : (s text : Bytes) → strip s (s ++ text) ≡ some text
unfolding strip
strip-append [] text = refl
strip-append (c ∷ s) text = rw ((=ℕ_iff c c).1 refl) (strip-append s text)

begins_apart-Stops : (s text : Bytes) → begins_apart s ≡ true → Stops (s ++ text)
begins_apart-Stops [] text h = cc
begins_apart-Stops (c ∷ s) text h = ground arith

number_step :
    (k n : ℕ) (ps : List Piece) (text rest : Bytes) (ns : List ℕ)
    → read_digits 0 text ≡ (n, rest)
    → read_layout ps rest ≡ some ns
    → read_layout (number k ∷ ps) text ≡ some (n ∷ ns)
unfolding read_layout
number_step k n ps text rest ns e f =
    let f' : read_layout ps (read_digits 0 text).1 ≡ some ns =
      ap (λ (r : ℕ × Bytes). read_layout ps r.1) e ∙ f in
    rw (f', read_layout) (ap (λ (r : ℕ × Bytes). some (r.0 ∷ ns)) e)

read_layout-stream :
    (ps : List Piece)
    → separated ps ≡ true
    → InWords (numbers ps)
    → read_layout ps (stream ps) ≡ some (numbers ps)
unfolding read_layout stream
read_layout-stream [] h small = refl
read_layout-stream (words s ∷ ps) h small =
    rw (strip-append s (stream ps), read_layout) (read_layout-stream ps h small)
read_layout-stream (number n ∷ []) h small =
    number_step n n [] (show_number n ++ []) [] [] (read-show_number n [] small.0 tt) refl
read_layout-stream (number n ∷ words s ∷ ps) h small =
    number_step n n (words s ∷ ps) (show_number n ++ (s ++ stream ps)) (s ++ stream ps) (numbers ps)
      (read-show_number n (s ++ stream ps) small.0
        (begins_apart-Stops s (stream ps) (ground (arith, h))))
      (read_layout-stream (words s ∷ ps) (ground (arith, h)) small.1)
read_layout-stream (number n ∷ number m ∷ ps) h small = cc

-- The counters, in the order of the exports.
abbrev pub counters : Metrics → List ℕ
counters m =
    m.tasks_submitted ∷ m.tasks_completed ∷ m.tasks_failed ∷ m.tasks_retried ∷ m.tasks_cancelled
    ∷ m.total_execution_time_us ∷ m.max_execution_time_us ∷ m.min_execution_time_us
    ∷ m.queue_wait_time_us ∷ m.inflight_tasks ∷ m.peak_inflight ∷ []

-- Readers, which know the layout only.
pub read_csv : Bytes → Option (List ℕ)
unfolding read_layout
read_csv = read_layout (csv_pieces no_metrics)

pub read_json : Bytes → Option (List ℕ)
unfolding read_layout
read_json = read_layout (json_pieces no_metrics)

pub read_prometheus : Bytes → Bytes → Option (List ℕ)
unfolding read_layout
read_prometheus prefix = read_layout (prometheus_pieces prefix no_metrics)

-- The counters of the Prometheus export.
abbrev pub watched : Metrics → List ℕ
watched m =
    m.tasks_submitted ∷ m.tasks_completed ∷ m.tasks_failed ∷ m.inflight_tasks ∷ m.peak_inflight ∷ []

same_prometheus :
    (m : MetricsSnapshot) (prefix text : Bytes)
    → read_prometheus prefix text ≡ read_layout (prometheus_pieces prefix m) text
unfolding read_prometheus prometheus_pieces
same_prometheus m prefix text = refl

-- Whatever the prefix is, the five counters of the Prometheus export are read back from it.
pub read_prometheus-to_prometheus :
    (m : Metrics) (prefix : Bytes)
    → InWords (watched m)
    → read_prometheus prefix (to_prometheus (get_metrics m) prefix) ≡ some (watched m)
unfolding to_prometheus prometheus_pieces get_metrics
read_prometheus-to_prometheus m prefix small =
    let s = get_metrics m in
    same_prometheus s prefix (to_prometheus s prefix)
    ∙ read_layout-stream (prometheus_pieces prefix s) refl small
