-- ===== src/Signer/Parallel/Numbers.antt =====
-- No two calls get the same nonce, and none is left out.
use spmp.Prelude.{ℕ, suc, ◌+◌, ◌≤◌, ◌<◌, ◌≡◌, ap, refl, arith, List, [], ◌∷◌, map, length, All, sym}
use spmp.Prelude.Words.{u64_max}
use spmp.Results.{add_u64-small, Result, ok, err, panic, waits, Profile}
use spmp.ClientTypes.{SignedTicket}
use spmp.Alloy.{Alloy}
use spmp.Signer.{Wallet, Signer}
use spmp.Signer.Tickets.{Call, sign_ticket-SignedFor}
use spmp.Signer.Parallel.{
  Thread, waiting, numbered, finished, finish, Moves, take_nonce, sign_it, behind, Run, stay, step,
}
use spmp.Signer.Parallel.Counting.{
  occurrences, number_of, ticket_of, numbers, ticket_nonces, taken, within, occurrences-append,
  within-split, within_self, has_taken-le_one, taken-le-length,
}

module _ {Key : Type 0} (wallet : Wallet Key) {Sig : Type 0} (alloy : Alloy Sig)
    (profile : Profile) where
  -- A ticket that a call made has the nonce that the call took.
  abbrev pub HasTaken : Thread → Type 0
  HasTaken (waiting c) = Unit
  HasTaken (numbered c n) = Unit
  HasTaken (finished c n r) = (t : SignedTicket) → r ≡ ok t → n ≡ ok t.payload.nonce

  finish-HasTaken :
      (c : Call) (self : Signer Key) (n : Result ℕ) (t : SignedTicket)
      → finish wallet alloy profile c self n ≡ ok t
      → n ≡ ok t.payload.nonce
  finish-HasTaken c self (ok n) t h =
      let (_, _, _, _, _, packed, _) = sign_ticket-SignedFor wallet alloy profile c self n t h in
      ap (λ p. ok p.nonce) (sym packed)
  finish-HasTaken c self (err e) t h = absurd (cc)
  finish-HasTaken c self panic t h = absurd (cc)
  finish-HasTaken c self waits t h = absurd (cc)

  Moves-HasTaken :
      {self self' : Signer Key} {ts ts' : List Thread}
      → Moves wallet alloy profile self ts self' ts'
      → All HasTaken ts
      → All HasTaken ts'
  Moves-HasTaken (take_nonce c ts) m = (tt, m.1)
  Moves-HasTaken {self} (sign_it c n ts) m = (finish-HasTaken c self n, m.1)
  Moves-HasTaken (behind t mv) m = (m.0, Moves-HasTaken mv m.1)

  ticket_of-le-number_of :
      (t : Thread) (k : ℕ) → HasTaken t → occurrences k (ticket_of t) ≤ occurrences k (number_of t)
  ticket_of-le-number_of (waiting c) k h = omega arith
  ticket_of-le-number_of (numbered c n) k h = omega arith
  ticket_of-le-number_of (finished c n (ok t)) k h = rw (h t refl) (omega arith)
  ticket_of-le-number_of (finished c n (err e)) k h = omega arith
  ticket_of-le-number_of (finished c n panic) k h = omega arith
  ticket_of-le-number_of (finished c n waits) k h = omega arith

  tickets-le-numbers :
      (ts : List Thread) (k : ℕ)
      → All HasTaken ts
      → occurrences k (ticket_nonces ts) ≤ occurrences k (numbers ts)
  tickets-le-numbers [] k m = omega arith
  tickets-le-numbers (t ∷ ts) k m = omega (
    arith,
    tickets-le-numbers ts k m.1,
    ticket_of-le-number_of t k m.0,
    occurrences-append k (ticket_of t) (ticket_nonces ts),
    occurrences-append k (number_of t) (numbers ts),
  )

  -- A step takes the next number or none.
  record Advances (self self' : Signer Key) (ts ts' : List Thread) : Type 0 where
    next_number :
        (k : ℕ)
        → occurrences k (numbers ts')
          ≡ occurrences k (numbers ts) + within self.nonce_watermark self'.nonce_watermark k
    moved : self'.nonce_watermark + taken ts ≡ self.nonce_watermark + taken ts'
    grows : self.nonce_watermark ≤ self'.nonce_watermark
    same_size : length ts' ≡ length ts

  Moves-Advances :
      {self self' : Signer Key} {ts ts' : List Thread}
      → self.nonce_watermark + length ts ≤ u64_max + taken ts
      → Moves wallet alloy profile self ts self' ts'
      → Advances self self' ts ts'
  Moves-Advances {self} room (take_nonce c ts) =
      let below : self.nonce_watermark < u64_max = omega (arith, taken-le-length ts) in
      rw (add_u64-small profile self.nonce_watermark 1 (omega arith)) (record {
        next_number = λ k. ground arith;
        moved = omega arith;
        grows = omega arith;
        same_size = refl;
      })
  Moves-Advances {self} room (sign_it c n ts) = record {
    next_number = λ k. omega (arith, within_self self.nonce_watermark k);
    moved = refl;
    grows = omega arith;
    same_size = refl;
  }
  Moves-Advances room (behind {ts} {ts'} t mv) =
      let rest = Moves-Advances (omega (arith, has_taken-le_one t)) mv in
      record {
        next_number = λ k. omega (
          arith,
          rest.next_number k,
          occurrences-append k (number_of t) (numbers ts),
          occurrences-append k (number_of t) (numbers ts'),
        );
        moved = omega (arith, rest.moved);
        grows = rest.grows;
        same_size = omega (arith, rest.same_size);
      }

  -- What holds after any steps: each nonce from the start to the watermark is taken once.
  pub record Counted (start size : ℕ) (self : Signer Key) (ts : List Thread) : Type 0 where
    pub counted : (k : ℕ) → occurrences k (numbers ts) ≡ within start self.nonce_watermark k
    pub reached : self.nonce_watermark ≡ start + taken ts
    pub sized : length ts ≡ size
    pub matched : All HasTaken ts

  waiting-numbers : (cs : List Call) → numbers (map waiting cs) ≡ []
  waiting-numbers [] = refl
  waiting-numbers (c ∷ cs) = waiting-numbers cs

  waiting-taken : (cs : List Call) → taken (map waiting cs) ≡ 0
  waiting-taken [] = refl
  waiting-taken (c ∷ cs) = omega (arith, waiting-taken cs)

  waiting-length : (cs : List Call) → length (map waiting cs) ≡ length cs
  waiting-length [] = refl
  waiting-length (c ∷ cs) = ap suc (waiting-length cs)

  waiting-HasTaken : (cs : List Call) → All HasTaken (map waiting cs)
  waiting-HasTaken [] = tt
  waiting-HasTaken (c ∷ cs) = (tt, waiting-HasTaken cs)

  pub start-Counted :
      (self : Signer Key) (cs : List Call)
      → Counted self.nonce_watermark (length cs) self (map waiting cs)
  start-Counted self cs = record {
    counted = λ k. rw (waiting-numbers cs) (sym (within_self self.nonce_watermark k));
    reached = omega (arith, waiting-taken cs);
    sized = waiting-length cs;
    matched = waiting-HasTaken cs;
  }

  Moves-Counted :
      {self self' : Signer Key} {ts ts' : List Thread} (start size : ℕ)
      → start + size ≤ u64_max
      → Moves wallet alloy profile self ts self' ts'
      → Counted start size self ts
      → Counted start size self' ts'
  Moves-Counted {self} {self'} {ts} {ts'} start size room mv c =
      let sized = c.sized in
      let reached = c.reached in
      let on = Moves-Advances (omega arith) mv in
      record {
        counted = λ k. omega (
          arith,
          c.counted k,
          on.next_number k,
          within-split start self.nonce_watermark self'.nonce_watermark k (omega arith) on.grows,
        );
        reached = omega (arith, on.moved);
        sized = omega (arith, on.same_size);
        matched = Moves-HasTaken mv c.matched;
      }

  pub Run-Counted :
      {self : Signer Key} {ts : List Thread} {n : ℕ} {self' : Signer Key} {ts' : List Thread}
      (start size : ℕ)
      → start + size ≤ u64_max
      → Run wallet alloy profile self ts n self' ts'
      → Counted start size self ts
      → Counted start size self' ts'
  Run-Counted start size room stay c = c
  Run-Counted start size room (step r mv) c =
      Moves-Counted start size room mv (Run-Counted start size room r c)

  -- Calls in parallel, after any of their steps in any order, where the u64 has room for all of
  -- them: the nonces that the calls have taken are those that follow the signer's watermark, as many
  -- as calls have taken one, each taken once; and no two tickets that the calls made have the same
  -- nonce, nor one that was not taken.
  pub Run-nonces :
      {n : ℕ} {self' : Signer Key} {ts : List Thread} (self : Signer Key) (cs : List Call) (k : ℕ)
      → self.nonce_watermark + length cs ≤ u64_max
      → Run wallet alloy profile self (map waiting cs) n self' ts
      → (occurrences k (numbers ts)
          ≡ within self.nonce_watermark (self.nonce_watermark + taken ts) k)
        × (occurrences k (ticket_nonces ts)
            ≤ within self.nonce_watermark (self.nonce_watermark + taken ts) k)
  Run-nonces {ts} self cs k room r =
      let end = Run-Counted self.nonce_watermark (length cs) room r (start-Counted self cs) in
      rw (← end.reached) (end.counted k, rw (← end.counted k) (tickets-le-numbers ts k end.matched))
