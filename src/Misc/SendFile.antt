-- ===== src/Misc/SendFile.antt =====
-- `sendfile` as it is built with WRAP_SYSCALL (src/misc.cpp). What `read` and `write` give in each
-- round enters as a list; the file offset of the input and the bytes written are kept.
use mlibc_glibc_compat.Prelude.{
  ℕ, zero, suc, ◌+◌, ◌-◌, ◌≤◌, ◌<◌, ◌≡◌, ◌≢◌, ◌⊎◌, inl, inr, refl, arith, Option, none, some, List,
  [], ◌∷◌, ◌==◌, ltb, if◌then◌else◌, length, ◌*◌,
}

-- The results of the two calls of one round: a count, or `none` for an error.
pub record Transfer : Type 0 where
  pub read_res : Option ℕ
  pub write_res : Option ℕ

pub data Ending : Type 0 where
  sent : (res : ℕ) → Ending
  failed : Ending  -- the negative result of `read` or `write`
  unfinished : Ending  -- the rounds given are used up

-- How a call leaves things: `moved` is how far the reads have moved the input's offset.
pub record Sent : Type 0 where
  pub ending : Ending
  pub moved : ℕ
  pub written : ℕ

abbrev pub chunk : ℕ
chunk = 512

abbrev pub to_copy : ℕ → ℕ
to_copy count = if ltb count chunk then count else chunk

pub data Progress : Type 0 where
  stop : Sent → Progress
  go_on : (count res moved : ℕ) → Progress

-- One round of `while(count)`: `res` and `moved` add up, and a write of less than was asked for, or
-- an error, is the last.
unfoldable pub send_round : (count res moved : ℕ) → (read_res write_res : Option ℕ) → Progress
send_round count res moved none w =
    Progress.stop (record { ending = Ending.failed; moved = moved; written = res })
send_round count res moved (some n) none =
    Progress.stop (record { ending = Ending.failed; moved = moved + n; written = res })
send_round count res moved (some n) (some w) =
    if w == to_copy count
    then Progress.go_on (count - w) (res + w) (moved + n)
    else Progress.stop
        (record { ending = Ending.sent (res + w); moved = moved + n; written = res + w })

-- The loop, over the rounds that it is given.
unfoldable pub send_loop : (count res moved : ℕ) → List Transfer → Sent
unfolding send_round
send_loop zero res moved ts = record { ending = Ending.sent res; moved = moved; written = res }
send_loop (suc c) res moved [] = record { ending = Ending.unfinished; moved = moved; written = res }
send_loop (suc c) res moved (t ∷ ts) = elim (send_round (suc c) res moved t.read_res t.write_res) [
  | Progress.stop s ↦ s
  | Progress.go_on c' r' m' ↦ send_loop c' r' m' ts
]

-- The whole call: with an offset, the input is positioned there first, `cur` is what that `lseek`
-- returns, and every return positions the input at `cur` again. The result is the ending, and the
-- offset of the input after the call.
unfoldable pub sendfile :
    (position : ℕ) → (offset : Option ℕ) → (count : ℕ) → List Transfer → Sent × ℕ
unfolding send_loop
sendfile position none count ts = let s = send_loop count 0 0 ts in (s, position + s.moved)
sendfile position (some offset) count ts = (send_loop count 0 0 ts, offset)

-- What the system can answer: a read of at most what is asked for, and a write of at most what was
-- read. The count goes down by what is written.
abbrev pub Fits : ℕ → Option ℕ → Option ℕ → Type 0
Fits c (some n) (some w) = (n ≤ to_copy c) × (w ≤ n)
Fits c (some n) none = n ≤ to_copy c
Fits c none _ = Unit {0}

abbrev pub amount : Option ℕ → ℕ
amount none = 0
amount (some w) = w

abbrev pub IsPossible : ℕ → List Transfer → Type 0
IsPossible c [] = Unit {0}
IsPossible c (t ∷ ts) = Fits c t.read_res t.write_res × IsPossible (c - amount t.write_res) ts

abbrev Reported : Ending → ℕ → Type 0
Reported (Ending.sent r) w = r ≡ w
Reported _ w = Unit {0}

-- The promise of the loop, begun with `res` bytes written and an offset moved by `moved`.
abbrev Accounted : (count res moved : ℕ) → Sent → Type 0
Accounted c res moved s =
    Reported s.ending s.written
    × (s.written ≤ res + c)
    × (s.written + moved ≤ s.moved + res)
    × (s.moved + res ≤ s.written + moved + chunk)

abbrev Kept : (count res moved : ℕ) → Option ℕ → Progress → Type 0
Kept c res moved w (Progress.stop s) = Accounted c res moved s × (s.ending ≢ Ending.unfinished)
Kept c res moved w (Progress.go_on c' r' m') =
    (c' ≡ c - amount w)
    × (r' + c' ≡ res + c)
    × (r' + moved ≡ res + m')
    × ((c' ≡ 0) ⊎ (c' + chunk ≡ c))

send_round-Kept :
    (c res moved : ℕ) (r w : Option ℕ)
    → Fits c r w
    → Kept c res moved w (send_round c res moved r w)
unfolding send_round
send_round-Kept c res moved none w h = ground arith
send_round-Kept c res moved (some n) none h = ground arith
send_round-Kept c res moved (some n) (some w) h = ground arith

Progress-cases :
    (p : Progress)
    → ((s : Sent) × (p ≡ Progress.stop s)) ⊎ ((c r m : ℕ) × (p ≡ Progress.go_on c r m))
Progress-cases (Progress.stop s) = inl (s, refl)
Progress-cases (Progress.go_on c r m) = inr (c, r, m, refl)

send_loop-Accounted :
    (count res moved : ℕ) (ts : List Transfer)
    → IsPossible count ts
    → Accounted count res moved (send_loop count res moved ts)
unfolding send_loop
send_loop-Accounted zero res moved ts h = ground arith
send_loop-Accounted (suc c) res moved [] h = ground arith
send_loop-Accounted (suc c) res moved (t ∷ ts) h =
    elim (Progress-cases (send_round (suc c) res moved t.read_res t.write_res)) [
      | inl (s, e) ↦ rw (e, send_loop) (rw e at kept).0
      | inr (c', r', m', e) ↦
          let k : Kept (suc c) res moved t.write_res (Progress.go_on c' r' m') = rw e at kept in
          let ih : Accounted c' r' m' (send_loop c' r' m' ts) =
            send_loop-Accounted c' r' m' ts (rw k.0 h.1) in
          rw (e, send_loop) (ground arith)
    ]
  where
    kept : Kept (suc c) res moved t.write_res (send_round (suc c) res moved t.read_res t.write_res)
    kept = send_round-Kept (suc c) res moved t.read_res t.write_res h.0

-- With no offset, a count and any results of `read` and `write` that the system can give: the bytes
-- written are the result, if the call succeeds, and at most the count; and the input's offset has
-- moved by at least the bytes written, and by at most 512 more, which are lost if the last write
-- was short.
pub sendfile_accounts :
    (position count : ℕ) (ts : List Transfer)
    → IsPossible count ts
    → let (s, position') = sendfile position none count ts in
      Reported s.ending s.written
      × (s.written ≤ count)
      × (position + s.written ≤ position')
      × (position' ≤ position + s.written + chunk)
unfolding sendfile
sendfile_accounts position count ts h = ground (arith, send_loop-Accounted count 0 0 ts h)

send_loop-ends :
    (count res moved : ℕ) (ts : List Transfer)
    → IsPossible count ts
    → count ≤ chunk * length ts
    → (send_loop count res moved ts).ending ≢ Ending.unfinished
unfolding send_loop
send_loop-ends zero res moved ts h b = ground arith
send_loop-ends (suc c) res moved [] h b = absurd (omega arith)
send_loop-ends (suc c) res moved (t ∷ ts) h b =
    elim (Progress-cases (send_round (suc c) res moved t.read_res t.write_res)) [
      | inl (s, e) ↦ rw (e, send_loop) (rw e at kept).1
      | inr (c', r', m', e) ↦
          let k : Kept (suc c) res moved t.write_res (Progress.go_on c' r' m') = rw e at kept in
          rw (e, send_loop) (send_loop-ends c' r' m' ts (rw k.0 h.1) (omega arith))
    ]
  where
    kept : Kept (suc c) res moved t.write_res (send_round (suc c) res moved t.read_res t.write_res)
    kept = send_round-Kept (suc c) res moved t.read_res t.write_res h.0

-- The loop ends, with or without an offset: a round for each 512 bytes of the count, or part of
-- them, is enough.
pub sendfile_ends :
    (position count : ℕ) (offset : Option ℕ) (ts : List Transfer)
    → IsPossible count ts
    → count ≤ chunk * length ts
    → (sendfile position offset count ts).0.ending ≢ Ending.unfinished
unfolding sendfile
sendfile_ends position count none ts h b = send_loop-ends count 0 0 ts h b
sendfile_ends position count (some o) ts h b = send_loop-ends count 0 0 ts h b

-- A first write that is short, of `w` bytes where `n` were read: the call returns `w` as a success,
-- but with no offset the input stands behind all `n` bytes, and with an offset it stands at that
-- offset, wherever it stood before the call.
pub short_write_loses :
    (position offset count n w : ℕ) (ts : List Transfer)
    → 0 < count
    → n ≤ to_copy count
    → w < n
    → let ts' = record { read_res = some n; write_res = some w } ∷ ts in
      let s : Sent = record { ending = Ending.sent w; moved = n; written = w } in
      (sendfile position none count ts' ≡ (s, position + n))
      × (sendfile position (some offset) count ts' ≡ (s, offset))
unfolding sendfile send_loop
short_write_loses position offset zero n w ts p q h = absurd (omega arith)
short_write_loses position offset (suc c) n w ts p q h = (ground arith, ground arith)
