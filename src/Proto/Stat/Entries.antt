-- ===== src/Proto/Stat/Entries.antt =====
-- ParseStats of proto/stat.go: the entries that a read of a directory returns.
use go9p.Base.{
  ℕ, zero, suc, ◌+◌, ◌≤◌, ◌<◌, List, [], ◌∷◌, ◌++◌, length, Option, none, some, ◌≡◌, ◌≢◌, refl, sym,
  ap, ◌∙◌, arith, length-append, length-drop, append-nil, append_assoc, All,
}
use go9p.Proto.Marshal.{from_little, from_little_e16, from_little_e32, from_little_e64, from_string}
use go9p.Proto.Marshal.Parser.{Outcome, ok, err, panic, Parser, u16, u32, u64, string, pure, ◌>>=◌}
use go9p.Proto.Qid.{Qid, parse_qid, qid_fields}
use go9p.Proto.Stat.{
  Stat, IsStat, parse_stat, stat_bytes, stat_length, length-stat_bytes, Parses-stat,
}

-- One round behind `buff, err = s.parse(buff)`; `again` is the rest of the loop.
after_stat :
    (List ℕ → List Stat → Option (Outcome (List Stat)))
    → List Stat
    → Outcome (Stat × List ℕ)
    → Option (Outcome (List Stat))
after_stat again stats (ok (s, rest)) = again rest (stats ++ (s ∷ []))
after_stat again stats (err e) = some (err e)
after_stat again stats panic = some panic

-- `for len(buff) > 0 { buff, err = s.parse(buff) … stats = append(stats, s) }` with fuel; `none`
-- means that the fuel ran out.
parse_stats_loop : ℕ → List ℕ → List Stat → Option (Outcome (List Stat))
unfolding after_stat
parse_stats_loop fuel [] stats = some (ok stats)
parse_stats_loop zero (b ∷ buff) stats = none
parse_stats_loop (suc fuel) (b ∷ buff) stats =
    after_stat (parse_stats_loop fuel) stats (parse_stat (b ∷ buff))

-- Each round takes a byte at least, so the length is enough fuel.
unfoldable pub parse_stats : List ℕ → Option (Outcome (List Stat))
unfolding parse_stats_loop
parse_stats buff = parse_stats_loop (length buff) buff []

-- A parser that never returns more bytes than it was given.
record Shrinks {A : Type 0} (p : Parser A) : Type 0 where
  at : (buff : List ℕ) (a : A) (rest : List ℕ) → p buff ≡ ok (a, rest) → length rest ≤ length buff

Shrinks-bind :
    {A B : Type 0} (p : Parser A) (f : A → Parser B)
    → Shrinks p
    → ((a : A) → Shrinks (f a))
    → Shrinks (p >>= f)
unfolding ◌>>=◌
Shrinks-bind {A} {B} p f hp hf = record { at = λ buff b rest e. go buff b rest (p buff) refl e }
  where
    go :
        (buff : List ℕ) (b : B) (rest : List ℕ) (o : Outcome (A × List ℕ))
        → p buff ≡ o
        → elim o as (λ _. Outcome (B × List ℕ)) [
          | ok (a, r) ↦ f a r
          | err x ↦ err x
          | panic ↦ panic
        ]
          ≡ ok (b, rest)
        → length rest ≤ length buff
    go buff b rest (ok (a, r)) e h = omega (arith, hp.at buff a r e, (hf a).at r b rest h)
    go buff b rest (err x) e h = cc
    go buff b rest panic e h = cc

Shrinks-pure : {A : Type 0} (a : A) → Shrinks (pure a)
Shrinks-pure a = record { at = λ buff b rest e. ground arith }

length-from_little : (k : ℕ) (buff : List ℕ) → length (from_little k buff).1 ≤ length buff
unfolding from_little
length-from_little k buff = ground (arith, length-drop k buff)

Shrinks-u16 : Shrinks u16
unfolding from_little_e16
Shrinks-u16 = record { at = λ buff a rest e. ground (arith, length-from_little 2 buff) }

Shrinks-u32 : Shrinks u32
unfolding from_little_e32
Shrinks-u32 = record { at = λ buff a rest e. ground (arith, length-from_little 4 buff) }

Shrinks-u64 : Shrinks u64
unfolding from_little_e64
Shrinks-u64 = record { at = λ buff a rest e. ground (arith, length-from_little 8 buff) }

length-from_string : (buff : List ℕ) → length (from_string buff).1 ≤ length buff
unfolding from_string from_little_e16
length-from_string buff =
    ground
      (arith, length-from_little 2 buff, length-drop (from_little 2 buff).0 (from_little 2 buff).1)

Shrinks-string : Shrinks string
Shrinks-string = record { at = λ buff a rest e. ground (arith, length-from_string buff) }

ruleset shrink_rules =
    (Shrinks-bind, Shrinks-pure, Shrinks-u16, Shrinks-u32, Shrinks-u64, Shrinks-string)

Shrinks-qid_fields : (t : ℕ) → Shrinks (qid_fields t)
unfolding qid_fields
Shrinks-qid_fields t = search shrink_rules

Shrinks-qid : Shrinks parse_qid
unfolding parse_qid
Shrinks-qid = record { at = λ buff a rest e. go buff a rest e }
  where
    go :
        (buff : List ℕ) (a : Qid) (rest : List ℕ)
        → parse_qid buff ≡ ok (a, rest)
        → length rest ≤ length buff
    go [] a rest e = cc
    go (b ∷ buff) a rest e = omega (arith, (Shrinks-qid_fields b).at buff a rest e)

u16_takes : (b : ℕ) (buff : List ℕ) → length (from_little_e16 (b ∷ buff)).1 ≤ length buff
unfolding from_little_e16
u16_takes b buff = ground (arith, length-drop 2 (b ∷ buff))

-- Behind a number of two bytes, at least one byte of the buffer is gone.
u16-bind_takes :
    {B : Type 0} (f : ℕ → Parser B)
    → ((a : ℕ) → Shrinks (f a))
    → (b : ℕ) (buff : List ℕ) (x : B) (rest : List ℕ) → (u16 >>= f) (b ∷ buff) ≡ ok (x, rest)
    → length rest ≤ length buff
unfolding ◌>>=◌
u16-bind_takes f hf b buff x rest e =
    omega (arith, u16_takes b buff, (hf _).at (from_little_e16 (b ∷ buff)).1 x rest e)

parse_stat_takes :
    (b : ℕ) (buff : List ℕ) (s : Stat) (rest : List ℕ)
    → parse_stat (b ∷ buff) ≡ ok (s, rest)
    → length rest ≤ length buff
unfolding parse_stat
parse_stat_takes b buff s rest e =
    u16-bind_takes _
      (λ a. Shrinks-bind _ _ Shrinks-u16 λ _. Shrinks-bind _ _ Shrinks-u32 λ _.
        Shrinks-bind _ _ Shrinks-qid λ _. Shrinks-bind _ _ Shrinks-u32 λ _.
          Shrinks-bind _ _ Shrinks-u32 λ _. Shrinks-bind _ _ Shrinks-u32 λ _.
            Shrinks-bind _ _ Shrinks-u64 λ _. Shrinks-bind _ _ Shrinks-string λ _.
              Shrinks-bind _ _ Shrinks-string λ _.
                Shrinks-bind _ _ Shrinks-string
                  λ _. Shrinks-bind _ _ Shrinks-string λ _. Shrinks-pure _)
      b buff s rest e

after_stat-ne-none :
    (again : List ℕ → List Stat → Option (Outcome (List Stat))) (stats : List Stat)
    (o : Outcome (Stat × List ℕ))
    → ((s : Stat) (rest : List ℕ) → o ≡ ok (s, rest) → again rest (stats ++ (s ∷ [])) ≢ none)
    → after_stat again stats o ≢ none
unfolding after_stat
after_stat-ne-none again stats (ok (s, rest)) h e = h s rest refl e
after_stat-ne-none again stats (err x) h e = cc
after_stat-ne-none again stats panic h e = cc

parse_stats_loop-ne-none :
    (fuel : ℕ) (buff : List ℕ) (stats : List Stat)
    → length buff ≤ fuel
    → parse_stats_loop fuel buff stats ≢ none
unfolding parse_stats_loop
parse_stats_loop-ne-none fuel [] stats h e = cc
parse_stats_loop-ne-none zero (b ∷ buff) stats h e = absurd (omega arith)
parse_stats_loop-ne-none (suc fuel) (b ∷ buff) stats h e =
    after_stat-ne-none (parse_stats_loop fuel) stats (parse_stat (b ∷ buff))
      (λ s rest p q.
        parse_stats_loop-ne-none fuel rest (stats ++ (s ∷ []))
          (omega (arith, parse_stat_takes b buff s rest p)) q)
      e

-- ParseStats ends on every input: its loop never runs out of fuel.
pub parse_stats-ne-none : (buff : List ℕ) → parse_stats buff ≢ none
unfolding parse_stats
parse_stats-ne-none buff = parse_stats_loop-ne-none (length buff) buff [] (omega arith)

-- The entries of a directory, one after another.
abbrev pub entries : List Stat → List ℕ
entries [] = []
entries (s ∷ ss) = stat_bytes s ++ entries ss

stats_step :
    (fuel : ℕ) (buff : List ℕ) (stats : List Stat) (s : Stat) (rest : List ℕ)
    → 0 < length buff
    → parse_stat buff ≡ ok (s, rest)
    → parse_stats_loop (suc fuel) buff stats ≡ parse_stats_loop fuel rest (stats ++ (s ∷ []))
unfolding parse_stats_loop
stats_step fuel [] stats s rest h e = absurd (omega arith)
stats_step fuel (b ∷ buff) stats s rest h e = ap (after_stat (parse_stats_loop fuel) stats) e

parse_stats_loop-entries :
    (ss : List Stat) (fuel : ℕ) (stats : List Stat)
    → All IsStat ss
    → length (entries ss) ≤ fuel
    → parse_stats_loop fuel (entries ss) stats ≡ some (ok (stats ++ ss))
unfolding parse_stats_loop
parse_stats_loop-entries [] fuel stats h f = ap (λ t. some (ok t)) (sym (append-nil stats))
parse_stats_loop-entries (s ∷ ss) zero stats (v, vs) f =
    absurd (omega (arith, length-append (stat_bytes s) (entries ss), length-stat_bytes s))
parse_stats_loop-entries (s ∷ ss) (suc fuel) stats (v, vs) f =
    let n : length (entries (s ∷ ss)) ≡ stat_length s + length (entries ss) =
      length-append (stat_bytes s) (entries ss)
      ∙ ap (λ k. k + length (entries ss)) (length-stat_bytes s) in
    stats_step fuel (entries (s ∷ ss)) stats s (entries ss) (omega (arith, n))
      ((Parses-stat v).at (entries ss))
    ∙ parse_stats_loop-entries ss fuel (stats ++ (s ∷ [])) vs (omega (arith, n))
    ∙ ap (λ t. some (ok t)) (append_assoc stats (s ∷ []) ss)

-- ParseStats reads back the entries of any list of stats that fit the wire, in order.
pub parse_stats-entries : (ss : List Stat) → All IsStat ss → parse_stats (entries ss) ≡ some (ok ss)
unfolding parse_stats
parse_stats-entries ss h = parse_stats_loop-entries ss _ [] h (omega arith)
