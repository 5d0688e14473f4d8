-- ===== src/Launch/Sweep.antt =====
-- src/stratum/loop_stratum.rs: the sweep of a CPU worker.
use Prim.Native.Nat.{bit_and}
use csd_mining_pool_public.Prelude.{
  ◌≢◌, ℕ, zero, suc, ◌+◌, ◌-◌, ◌≤◌, ◌<◌, ◌≡◌, refl, sym, ap, ap₂, ◌∙◌, ◌⊎◌, inl, inr, Bool, true,
  false, ◌&&◌, none, some, List, ◌++◌, take, drop, length, arith, length-take, length-drop,
  length-append, take-append_of, drop-append_of, append_assoc, take_add, ◌==◌, Bool-cases, ℕ-cases,
  subst,
}
use csd_mining_pool_public.Prelude.Bytes.{to_le_bytes, length-to_le_bytes}
use csd_mining_pool_public.Sha.{
  Sha2, sha256d, midstate_of_first_chunk_fast, finish_sha256d_from_midstate_fast,
}
use csd_mining_pool_public.Sha.Compress.{State, sha256_iv}
use csd_mining_pool_public.Sha.Finish.{finish_sha256d_from_midstate_fast_lem}
use csd_mining_pool_public.Target.{hash_leq_target}
use csd_mining_pool_public.Launch.{CpuFind, Swept, nonce_hash, sweep, cpu_worker, with_nonce}

-- The 64 bytes of the midstate, and the 20 bytes after them.
with_nonce_split :
    (hdr : List ℕ) (n : ℕ)
    → with_nonce hdr n ≡ take 64 hdr ++ (take 16 (drop 64 hdr) ++ to_le_bytes 4 n)
unfolding with_nonce
with_nonce_split hdr n =
    ap (λ t. t ++ to_le_bytes 4 n) (take_add 64 16 hdr)
    ∙ append_assoc (take 64 hdr) (take 16 (drop 64 hdr)) (to_le_bytes 4 n)

-- The worker's short cut through the midstate is the double hash of the header with that nonce.
pub nonce_hash_lem :
    (sha2 : Sha2) (hdr : List ℕ) (n : ℕ)
    → length hdr ≡ 84
    → nonce_hash sha2 (midstate_of_first_chunk_fast sha2 hdr) (take 16 (drop 64 hdr)) n
      ≡ sha256d sha2 (with_nonce hdr n)
unfolding nonce_hash midstate_of_first_chunk_fast
nonce_hash_lem sha2 hdr n e =
    let full = with_nonce hdr n in
    let rest = take 16 (drop 64 hdr) ++ to_le_bytes 4 n in
    let first : length (take 64 hdr) ≡ 64 = omega (arith, length-take 64 hdr) in
    let long : length full ≡ 84 = omega (
      arith,
      ap length (with_nonce_split hdr n),
      length-append (take 64 hdr) rest,
      length-append (take 16 (drop 64 hdr)) (to_le_bytes 4 n),
      length-take 16 (drop 64 hdr),
      length-drop 64 hdr,
      length-to_le_bytes 4 n,
    ) in
    let low : take 64 full ≡ take 64 hdr =
      ap (take 64) (with_nonce_split hdr n) ∙ take-append_of 64 (take 64 hdr) rest first in
    let high : drop 64 full ≡ rest =
      ap (drop 64) (with_nonce_split hdr n) ∙ drop-append_of 64 0 (take 64 hdr) rest first in
    ap₂ (λ a b. finish_sha256d_from_midstate_fast sha2 (sha2.compress256 sha256_iv a) b) (sym low)
      (sym high)
    ∙ finish_sha256d_from_midstate_fast_lem sha2 full long

module _ (sha2 : Sha2) (midstate : State) (tail target : List ℕ) (cancelled : ℕ → Bool) where
  abbrev hit : ℕ → Bool
  hit n = hash_leq_target (nonce_hash sha2 midstate tail n) target

  -- The find is the first nonce of the range that passes.
  record IsFirst (n left : ℕ) (c : CpuFind) : Type 0 where
    from_start : n ≤ c.nonce
    before_end : c.nonce < n + left
    hash_is : nonce_hash sha2 midstate tail c.nonce ≡ c.hash
    passes : hit c.nonce ≡ true
    first : (m : ℕ) → n ≤ m → m < c.nonce → hit m ≡ false

  stops : ℕ → Bool
  stops i = bit_and i 0xff == 0 && cancelled i

  -- One step, by what the worker reads and by whether the nonce passes.
  sweep_step :
      (left i n swept : ℕ)
      → (sweep sha2 midstate tail target cancelled (suc left) i n swept
          ≡ record { found = none; local_swept = swept })
        ⊎ ((hit n ≡ true)
            × (sweep sha2 midstate tail target cancelled (suc left) i n swept ≡ record {
              found = some (record { nonce = n; hash = nonce_hash sha2 midstate tail n });
              local_swept = swept + 1;
            }))
        ⊎ ((hit n ≡ false)
            × (sweep sha2 midstate tail target cancelled (suc left) i n swept
                ≡ sweep sha2 midstate tail target cancelled left (i + 1) (n + 1) (swept + 1)))
  unfolding sweep
  sweep_step left i n swept = elim (Bool-cases (bit_and i 0xff == 0 && cancelled i)) [
    | inl stop ↦ inl (rw stop)
    | inr go ↦ elim (Bool-cases (hit n)) [
      | inl pass ↦ inr (inl (pass, rw (go, pass)))
      | inr miss ↦ inr (inr (miss, rw (go, miss)))
    ]
  ]

  skip_miss :
      (n left : ℕ) (c : CpuFind) → hit n ≡ false → IsFirst (n + 1) left c → IsFirst n (suc left) c
  skip_miss n left c miss f = record {
    from_start = omega (arith, f.from_start);
    before_end = omega (arith, f.before_end);
    hash_is = f.hash_is;
    passes = f.passes;
    first = λ m p q. elim (ℕ-cases m n) [
      | inl e ↦ ap hit e ∙ miss
      | inr ne ↦ f.first m (omega arith) q
    ];
  }

  sweep-IsFirst :
      (left i n swept : ℕ) (c : CpuFind)
      → (sweep sha2 midstate tail target cancelled left i n swept).found ≡ some c
      → IsFirst n left c
  unfolding sweep
  sweep-IsFirst zero i n swept c h = absurd cc
  sweep-IsFirst (suc left) i n swept c h = elim (sweep_step left i n swept) [
    | inl stop ↦ absurd (cc (ap (λ (r : Swept). r.found) stop, h))
    | inr (inl (pass, found)) ↦
        let e : record { nonce = n; hash = nonce_hash sha2 midstate tail n } ≡ c =
          cc (ap (λ (r : Swept). r.found) found, h) in
        subst (IsFirst n (suc left)) e (record {
          from_start = omega arith;
          before_end = omega arith;
          hash_is = refl;
          passes = pass;
          first = λ m p q. absurd (omega arith);
        })
    | inr (inr (miss, on)) ↦ skip_miss n left c miss (
        sweep-IsFirst left (i + 1) (n + 1) (swept + 1) c (sym (ap (λ (r : Swept). r.found) on) ∙ h))
  ]

  quiet_step : (i : ℕ) → cancelled i ≡ false → (bit_and i 0xff == 0 && cancelled i) ≡ false
  quiet_step i h = ground arith

  hit_found :
      (left i n swept : ℕ)
      → (bit_and i 0xff == 0 && cancelled i) ≡ false
      → hit n ≡ true
      → (sweep sha2 midstate tail target cancelled (suc left) i n swept).found ≢ none
  unfolding sweep
  hit_found left i n swept go pass = rw (go, pass) (λ h. cc)

  sweep_on :
      (left i n swept : ℕ)
      → (bit_and i 0xff == 0 && cancelled i) ≡ false
      → hit n ≡ false
      → sweep sha2 midstate tail target cancelled (suc left) i n swept
        ≡ sweep sha2 midstate tail target cancelled left (i + 1) (n + 1) (swept + 1)
  unfolding sweep
  sweep_on left i n swept go miss = rw (go, miss)

  -- A sweep that nobody cancels and that finds nothing has tried every nonce.
  sweep-none :
      (left i n swept : ℕ)
      → ((k : ℕ) → cancelled k ≡ false)
      → (sweep sha2 midstate tail target cancelled left i n swept).found ≡ none
      → ((m : ℕ) → n ≤ m → m < n + left → hit m ≡ false)
        × ((sweep sha2 midstate tail target cancelled left i n swept).local_swept ≡ swept + left)
  unfolding sweep
  sweep-none zero i n swept live h = ((λ m p q. absurd (omega arith)), omega arith)
  sweep-none (suc left) i n swept live h =
      let quiet : (bit_and i 0xff == 0 && cancelled i) ≡ false = quiet_step i (live i) in
      elim (Bool-cases (hit n)) [
        | inl pass ↦ absurd (hit_found left i n swept quiet pass h)
        | inr miss ↦
            let on = sweep_on left i n swept quiet miss in
            let (none_left, count) =
              sweep-none left (i + 1) (n + 1) (swept + 1) live
                (sym (ap (λ (r : Swept). r.found) on) ∙ h) in
            (
              (λ m p q. elim (ℕ-cases m n) [
                | inl e ↦ ap hit e ∙ miss
                | inr ne ↦ none_left m (omega arith) (omega arith)
              ]),
              omega (arith, ap (λ (r : Swept). r.local_swept) on, count),
            )
      ]

module _ (sha2 : Sha2) (hdr target : List ℕ) (cancelled : ℕ → Bool) (cstart cend : ℕ) where
  -- The test of a nonce, with the header's double hash in place of the short cut.
  hit-sha256d :
      (n : ℕ)
      → length hdr ≡ 84
      → hit sha2 (midstate_of_first_chunk_fast sha2 hdr) (take 16 (drop 64 hdr)) target cancelled n
        ≡ hash_leq_target (sha256d sha2 (with_nonce hdr n)) target
  hit-sha256d n e = ap (λ h. hash_leq_target h target) (nonce_hash_lem sha2 hdr n e)

  worker-IsFirst :
      (c : CpuFind)
      → (cpu_worker sha2 hdr target cancelled cstart cend).found ≡ some c
      → IsFirst sha2
          (midstate_of_first_chunk_fast sha2 hdr)
          (take 16 (drop 64 hdr))
          target
          cancelled
          cstart
          (cend - cstart)
          c
  unfolding cpu_worker
  worker-IsFirst c h = sweep-IsFirst sha2 _ _ target cancelled (cend - cstart) 0 cstart 0 c h

  -- A CPU worker's find on an 84-byte header is a nonce of its range, with the double hash of the
  -- header with that nonce, and that hash passes the target.
  pub cpu_worker_found :
      (c : CpuFind)
      → length hdr ≡ 84
      → (cpu_worker sha2 hdr target cancelled cstart cend).found ≡ some c
      → (cstart ≤ c.nonce)
        × (c.nonce < cend)
        × (c.hash ≡ sha256d sha2 (with_nonce hdr c.nonce))
        × (hash_leq_target c.hash target ≡ true)
  cpu_worker_found c e h =
      let f = worker-IsFirst c h in
      (
        f.from_start,
        omega (arith, f.from_start, f.before_end),
        sym f.hash_is ∙ nonce_hash_lem sha2 hdr c.nonce e,
        sym (ap (λ t. hash_leq_target t target) f.hash_is) ∙ f.passes,
      )

  -- No nonce of the range below a CPU worker's find on an 84-byte header is a share.
  pub cpu_worker_first :
      (c : CpuFind) (m : ℕ)
      → length hdr ≡ 84
      → (cpu_worker sha2 hdr target cancelled cstart cend).found ≡ some c
      → cstart ≤ m
      → m < c.nonce
      → hash_leq_target (sha256d sha2 (with_nonce hdr m)) target ≡ false
  cpu_worker_first c m e h p q = sym (hit-sha256d m e) ∙ (worker-IsFirst c h).first m p q

  -- A CPU worker that is never cancelled and finds nothing has counted every nonce of its range,
  -- and none of them is a share of the 84-byte header.
  pub cpu_worker-none :
      (m : ℕ)
      → length hdr ≡ 84
      → ((k : ℕ) → cancelled k ≡ false)
      → (cpu_worker sha2 hdr target cancelled cstart cend).found ≡ none
      → cstart ≤ m
      → m < cend
      → (hash_leq_target (sha256d sha2 (with_nonce hdr m)) target ≡ false)
        × ((cpu_worker sha2 hdr target cancelled cstart cend).local_swept ≡ cend - cstart)
  unfolding cpu_worker
  cpu_worker-none m e live h p q =
      let (missed, count) =
        sweep-none sha2 (midstate_of_first_chunk_fast sha2 hdr) (take 16 (drop 64 hdr)) target
          cancelled (cend - cstart) 0 cstart 0 live h in
      (sym (hit-sha256d m e) ∙ missed m p (omega arith), omega (arith, count))
