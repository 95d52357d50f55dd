-- ===== src/Queue/Race/Conserve.antt =====
-- Under every schedule each task that is put in is taken out once or stands in a slot.
use Prim.Native.Nat.{bit_and}
use nexus_task.Prelude.{
  ℕ, zero, suc, ◌+◌, ◌<◌, ◌≡◌, refl, arith, Bool, true, false, Option, none, some, List, [], ◌∷◌,
  length, get_or, set, count, count-append, ◌=ℕ◌, if◌then◌else◌, Bool-cases, inl, inr,
}
use nexus_task.Queue.{Queue, slot, cas_null}
use nexus_task.Queue.Race.{
  Pc, idle, loads_head, exchanges, reads_head, claims, access, World, Event, calls_enqueue,
  calls_dequeue, accesses, happen, play, between_calls, begin, cas_task, puts, takes,
}
use nexus_task.Queue.Race.Range.{InRange, Fits, AllFit, happen-AllFit}

abbrev hit : ℕ → Option ℕ → ℕ
hit a none = 0
hit a (some task) = if task =ℕ a then 1 else 0

-- How often a task stands in the slots.
abbrev pub stored : ℕ → List (Option ℕ) → ℕ
stored a [] = 0
stored a (cell ∷ cells) = hit a cell + stored a cells

stored-set :
    (a : ℕ) (cells : List (Option ℕ)) (i : ℕ) (cell : Option ℕ)
    → i < length cells
    → stored a (set cells i cell) + hit a (get_or cells i none) ≡ stored a cells + hit a cell
stored-set a [] i cell h = absurd (omega arith)
stored-set a (c ∷ cells) zero cell h = omega arith
stored-set a (c ∷ cells) (suc i) cell h = omega (arith, stored-set a cells i cell (omega arith))

null_won : (spurious : Bool) (cell : Option ℕ) → cas_null spurious cell ≡ true → cell ≡ none
null_won true cell h = cc
null_won false none h = refl
null_won false (some found) h = cc

pub task_won :
    (spurious : Bool) (task : ℕ) (cell : Option ℕ)
    → cas_task spurious task cell ≡ true
    → cell ≡ some task
task_won true task cell h = cc
task_won false task none h = cc
task_won false task (some found) h = ground arith

-- What an access puts in or takes out, it changes in the slots.
access-stored :
    (a : ℕ) (spurious : Bool) (q : Queue ℕ) (p : Pc)
    → InRange q
    → Fits q.capacity p
    → stored a (access spurious q p).0.buffer + count a (takes spurious q p)
      ≡ stored a q.buffer + count a (puts spurious q p)
unfolding access
access-stored a spurious q (exchanges task tail next_tail) v f =
    elim (Bool-cases (cas_null spurious (slot q tail))) [
      | inr e ↦ rw e refl
      | inl e ↦
          let set_at = stored-set a q.buffer tail (some task) (omega (arith, v.sized, f)) in
          let was = null_won spurious (slot q tail) e in
          let empty : hit a (slot q tail) ≡ 0 = rw was refl in rw e (omega (arith, set_at, empty))
    ]
access-stored a spurious q (claims head task) v f =
    elim (Bool-cases (cas_task spurious task (slot q (bit_and head q.mask)))) [
      | inr e ↦ rw e refl
      | inl e ↦
          let i = bit_and head q.mask in
          let set_at =
            stored-set a q.buffer i none (omega (arith, v.sized, v.masked head, v.some_cell)) in
          let was = task_won spurious task (slot q i) e in
          let one : hit a (slot q i) ≡ (if task =ℕ a then 1 else 0) = rw was refl in
          rw e (omega (arith, set_at, one))
    ]
access-stored a spurious q idle v f = refl
access-stored a spurious q _ v f = refl

abbrev pub Balanced : World → Type 0
Balanced w = (a : ℕ) → count a w.put ≡ count a w.taken + stored a w.queue.buffer

begin-Balanced : (thread : ℕ) (p : Pc) (w : World) → Balanced w → Balanced (begin thread p w)
begin-Balanced thread p w b a = elim (Bool-cases (between_calls (w.pc thread))) [
  | inl e ↦ rw e (b a)
  | inr e ↦ rw e (b a)
]

happen-Balanced : (e : Event) (w : World) → AllFit w → Balanced w → Balanced (happen e w)
unfolding happen
happen-Balanced (calls_enqueue thread task) w v b = begin-Balanced thread (loads_head task) w b
happen-Balanced (calls_dequeue thread) w v b = begin-Balanced thread reads_head w b
happen-Balanced (accesses thread spurious) w v b = λ a. omega (
  arith,
  b a,
  count-append a w.put (puts spurious w.queue (w.pc thread)),
  count-append a w.taken (takes spurious w.queue (w.pc thread)),
  access-stored a spurious w.queue (w.pc thread) v.range (v.fit thread),
)

-- However the accesses of any number of threads are interleaved, each task has been put into a slot
-- as often as it has been taken out and stands in a slot now: none is lost from the buffer and none
-- is handed out twice.
pub play-Balanced : (es : List Event) (w : World) → AllFit w → Balanced w → Balanced (play es w)
unfolding play
play-Balanced [] w v b = b
play-Balanced (e ∷ es) w v b =
    play-Balanced es (happen e w) (happen-AllFit e w v) (happen-Balanced e w v b)
