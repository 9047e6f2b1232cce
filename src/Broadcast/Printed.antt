-- ===== src/Broadcast/Printed.antt =====
-- What examples/bench/shared-broadcast/main.go prints under a schedule.
use mathlib.Core.Path.{subst}
use valk.Prelude.{
  ℕ, zero, suc, ◌≡◌, refl, ◌∙◌, sym, ap, ◌⊎◌, inl, inr, none, some, List, [], ◌∷◌, ◌++◌, true,
  arith, ok, length, get_elem?, map, replicate, if◌then◌else◌, Bool-cases,
}
use valk.Prelude.Output.{Line}
use valk.Prelude.Turns.{run_turns, run_turns-Keeps, run_turns-completes}
use valk.Broadcast.{Inbox, looping, sending, closing, waiting, Publisher, State, add_all}
use valk.Broadcast.Delivered.{add_messages, messages, to_come, has_closed, IsOpen, InRange}
use valk.Broadcast.Main.{Turn, try_turn, new_inbox, start, all_drained, is_done, checksum_line, run}
use valk.Broadcast.Progress.{turn-Rule}
use valk.Broadcast.Steps.{IsSound}

-- What a subscriber adds up that gets every message once, in order.
unfoldable pub subscriber_total : (ℕ → List ℕ) → ℕ → ℕ
unfolding add_messages messages
subscriber_total format_uint count = add_messages 0 (messages format_uint count 0)

unfoldable pub ideal_line : (ℕ → List ℕ) → ℕ → Line
unfolding add_all
ideal_line format_uint count =
    checksum_line count (add_all 0 (replicate 4 (subscriber_total format_uint count)))

start-IsOpen :
    (format_uint : ℕ → List ℕ) (count b : ℕ)
    → IsOpen format_uint (subscriber_total format_uint count) (looping count 0) b new_inbox
unfolding has_closed to_come subscriber_total
start-IsOpen format_uint count b = record {
  closes = refl;
  receives = λ d. cc;
  room = omega arith;
  ends = refl;
}

four_new :
    (b : ℕ) (x : Inbox)
    → get_elem? (new_inbox ∷ new_inbox ∷ new_inbox ∷ new_inbox ∷ []) b ≡ some x
    → new_inbox ≡ x
four_new zero x e = cc
four_new (suc zero) x e = cc
four_new (suc (suc zero)) x e = cc
four_new (suc (suc (suc zero))) x e = cc
four_new (suc (suc (suc (suc b)))) x e = cc

start-IsSound :
    (format_uint : ℕ → List ℕ) (count : ℕ)
    → IsSound format_uint (subscriber_total format_uint count) (start count)
unfolding start InRange
start-IsSound format_uint count = record {
  four = refl;
  range = refl;
  opens = λ b x e.
      let same : new_inbox ≡ x = four_new b x e in
      subst (IsOpen format_uint (subscriber_total format_uint count) (looping count 0) b) same
        (start-IsOpen format_uint count b);
}

-- A subscriber that has returned has its whole total.
drained-total :
    (format_uint : ℕ → List ℕ) (ideal : ℕ) (b : ℕ) (x : Inbox)
    → IsOpen format_uint ideal waiting b x
    → x.drained ≡ true
    → x.total ≡ ideal
unfolding to_come add_messages
drained-total format_uint ideal b x o d =
    let empty = (o.receives d).1 in sym (ap (λ l. add_messages x.total (l ++ [])) empty) ∙ o.ends

drained-totals :
    (ideal : ℕ) (xs : List Inbox)
    → ((b : ℕ) (x : Inbox) → get_elem? xs b ≡ some x → x.drained ≡ true → x.total ≡ ideal)
    → all_drained xs ≡ true
    → map (λ x. x.total) xs ≡ replicate (length xs) ideal
unfolding all_drained
drained-totals ideal [] t d = refl
drained-totals ideal (x ∷ xs) t d = elim (Bool-cases x.drained) [
  | inl y ↦
      let e = t 0 x refl y in let es = drained-totals ideal xs (λ b. t (suc b)) (ground arith) in cc
  | inr n ↦ absurd (ground arith)
]

is_done-totals :
    (format_uint : ℕ → List ℕ) (ideal : ℕ) (p : Publisher) (xs : List Inbox)
    → let s : State = record { publisher = p; inboxes = xs } in
      IsSound format_uint ideal s → is_done s ≡ true → map (λ x. x.total) xs ≡ replicate 4 ideal
unfolding is_done
is_done-totals format_uint ideal (looping left i) xs sound d = cc
is_done-totals format_uint ideal (sending n i m k) xs sound d = cc
is_done-totals format_uint ideal (closing k) xs sound d = cc
is_done-totals format_uint ideal waiting xs sound d =
    drained-totals ideal xs (λ b x e. drained-total format_uint ideal b x (sound.opens b x e)) d
    ∙ ap (λ n. replicate n ideal) sound.four

run-end :
    (format_uint : ℕ → List ℕ) (count : ℕ) (turns : List Turn) (s : State)
    → run_turns (try_turn format_uint) (start count) turns ≡ ok s
    → IsSound format_uint (subscriber_total format_uint count) s
    → run format_uint count turns
      ≡ ok (if is_done s then some (ideal_line format_uint count) else none)
unfolding run ideal_line
run-end format_uint count turns s e sound = elim (Bool-cases (is_done s)) [
  | inl d ↦
      let t =
        is_done-totals format_uint (subscriber_total format_uint count) s.publisher s.inboxes sound
          d in
      rw (run, e, d, t) refl
  | inr d ↦ rw (run, e, d) refl
]

-- No schedule of `main` and the four subscribers panics, and one that lets all of them finish prints
-- the checksum of four subscribers that each render every message exactly once, in order.
pub run-all_delivered :
    (format_uint : ℕ → List ℕ) (count : ℕ) (turns : List Turn)
    → (run format_uint count turns ≡ ok none)
      ⊎ (run format_uint count turns ≡ ok (some (ideal_line format_uint count)))
run-all_delivered format_uint count turns =
    let rule = turn-Rule format_uint (subscriber_total format_uint count) in
    let (s, e, sound) =
      run_turns-Keeps rule.keeps (start count) turns (start-IsSound format_uint count) in
    let r = run-end format_uint count turns s e sound in
    elim (Bool-cases (is_done s)) [ inl d ↦ inr cc | inr d ↦ inl cc ]

-- Every schedule can be continued so that all four subscribers return and that line is printed: a
-- full inbox never holds up `main`, and so the other subscribers, for good.
pub run-all_return :
    (format_uint : ℕ → List ℕ) (count : ℕ) (turns : List Turn)
    → (more : List Turn) × (run format_uint count (turns ++ more)
        ≡ ok (some (ideal_line format_uint count)))
run-all_return format_uint count turns =
    let (more, s, e, sound, end) =
      run_turns-completes (turn-Rule format_uint (subscriber_total format_uint count)) (start count)
        turns (start-IsSound format_uint count) in
    (more, run-end format_uint count (turns ++ more) s e sound ∙ rw (end) refl)
