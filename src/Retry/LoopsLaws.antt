-- ===== src/Retry/LoopsLaws.antt =====
-- The two bounded loops against what they document.
use mathlib.Core.List.{append-nil, append_assoc}
use domain_status.Common.{
  ℕ, zero, suc, ◌+◌, ◌-◌, ◌*◌, ◌^◌, ◌<◌, ◌≡◌, refl, ap, ◌∙◌, ◌⊎◌, inl, inr, Bool, true, false,
  Option, none, some, List, [], ◌∷◌, ◌++◌, arith, Result, ok, err, Result-cases, Bool-cases, ltb,
  leb,
}
use domain_status.Retry.Loops.{
  DownloadError, last, shl, downloads, with_network_download_retry, SqliteError, failed,
  sqlite_attempts, with_sqlite_retry,
}

module _ {T E : Type 0} (op : ℕ → Result T E) (base : ℕ) where
  -- `left` attempts from number `a` on: errors, each but the last followed by a delay of `base`
  -- seconds doubled with every attempt, up to the first success or the last attempt.
  pub data Tries : ℕ → ℕ → Result T (DownloadError E) → List ℕ → Type 0 where
    won : {a left : ℕ} (v : T) → op a ≡ ok v → Tries a (suc left) (ok v) []
    lost : {a : ℕ} (e : E) → op a ≡ err e → Tries a 1 (err (last e)) []
    retry :
        {a left : ℕ} {r : Result T (DownloadError E)} {delays : List ℕ} (e : E)
        → op a ≡ err e
        → Tries (a + 1) (suc left) r delays
        → Tries a (suc (suc left)) r (shl base (a - 1) ∷ delays)

  pub record Tried (left a : ℕ) (last_error : Option E) (slept : List ℕ) : Type 0 where
    pub result : Result T (DownloadError E)
    pub delays : List ℕ
    pub returned : downloads op base left a last_error slept ≡ (result, slept ++ delays)
    pub tries : Tries a left result delays

  downloads-step :
      (left a : ℕ) (last_error : Option E) (slept : List ℕ) (e : E)
      → a < 3
      → op a ≡ err e
      → downloads op base (suc left) a last_error slept
        ≡ downloads op base left (a + 1) (some e) (slept ++ shl base (a - 1) ∷ [])
  unfolding downloads
  downloads-step left a l slept e h bad =
      let below : ltb a 3 ≡ true = ground arith in rw (bad, downloads) (rw below)

  downloads-Tried :
      (left a : ℕ) (last_error : Option E) (slept : List ℕ)
      → a + left ≡ 3
      → Tried (suc left) a last_error slept
  downloads-Tried zero a l slept h = elim (Result-cases (op a)) [
    | inl (v, done) ↦ record {
      result = ok v;
      delays = [];
      returned = unfold downloads in ground (arith, append-nil slept);
      tries = won v done;
    }
    | inr (e, bad) ↦ record {
      result = err (last e);
      delays = [];
      returned = unfold downloads in ground (arith, append-nil slept);
      tries = lost e bad;
    }
  ]
  downloads-Tried (suc left) a l slept h = elim (Result-cases (op a)) [
    | inl (v, done) ↦ record {
      result = ok v;
      delays = [];
      returned = unfold downloads in ground (arith, append-nil slept);
      tries = won v done;
    }
    | inr (e, bad) ↦
        let t =
          downloads-Tried left (a + 1) (some e) (slept ++ shl base (a - 1) ∷ []) (omega arith) in
        record {
          result = t.result;
          delays = shl base (a - 1) ∷ t.delays;
          returned =
              downloads-step (suc left) a l slept e (omega arith) bad
              ∙ t.returned
              ∙ ap (λ d. (t.result, d)) (append_assoc slept (shl base (a - 1) ∷ []) t.delays);
          tries = retry e bad t.tries;
        }
  ]

-- A download makes at most three attempts: it stops at the first success, and otherwise returns
-- the error of the third. The delays are `base` seconds after the first failure and twice `base`
-- after the second, as 64-bit words; none follows the last attempt.
pub with_network_download_retry-Tries :
    {T E : Type 0} (op : ℕ → Result T E) (base : ℕ)
    → Tries op base 1 3
        (with_network_download_retry op base).0
        (with_network_download_retry op base).1
unfolding with_network_download_retry
with_network_download_retry-Tries op base =
    let t = downloads-Tried op base 2 1 none [] refl in rw t.returned t.tries

module _ {T E : Type 0} (operation : ℕ → Result T E) (is_retriable_error : E → Bool) where
  -- Attempts from number `a` to number 3: transient errors, each followed by a delay of 50 ms
  -- doubled with every attempt, up to the first success, the first permanent error, or attempt 3.
  pub data SqliteTries : ℕ → Result T (SqliteError E) → List ℕ → Type 0 where
    won : {a : ℕ} (v : T) → operation a ≡ ok v → SqliteTries a (ok v) []
    lost :
        {a : ℕ} (e : E)
        → operation a ≡ err e
        → (is_retriable_error e ≡ false) ⊎ (a ≡ 3)
        → SqliteTries a (err (failed e)) []
    retry :
        {a : ℕ} {r : Result T (SqliteError E)} {delays : List ℕ} (e : E)
        → operation a ≡ err e
        → is_retriable_error e ≡ true
        → a < 3
        → SqliteTries (a + 1) r delays
        → SqliteTries a r ((50 * 2 ^ a) ∷ delays)

  pub record SqliteTried (left a : ℕ) (slept : List ℕ) : Type 0 where
    pub result : Result T (SqliteError E)
    pub delays : List ℕ
    pub returned :
        sqlite_attempts operation is_retriable_error left a slept ≡ (result, slept ++ delays)
    pub tries : SqliteTries a result delays

  ended :
      {left a : ℕ} {slept : List ℕ} (r : Result T (SqliteError E))
      → sqlite_attempts operation is_retriable_error left a slept ≡ (r, slept)
      → SqliteTries a r []
      → SqliteTried left a slept
  ended {slept} r e t = record { result = r; delays = []; returned = rw append-nil e; tries = t }

  sqlite-step :
      (left a : ℕ) (slept : List ℕ) (e : E)
      → a < 3
      → operation a ≡ err e
      → is_retriable_error e ≡ true
      → sqlite_attempts operation is_retriable_error (suc left) a slept
        ≡ sqlite_attempts operation is_retriable_error left (a + 1) (slept ++ (50 * 2 ^ a) ∷ [])
  unfolding sqlite_attempts
  sqlite-step left a slept e below bad may =
      let more : leb 3 a ≡ false = ground arith in rw (bad, sqlite_attempts) (rw may (rw more refl))

  sqlite-Tried : (left a : ℕ) (slept : List ℕ) → a + left ≡ 4 → 0 < left → SqliteTried left a slept
  sqlite-Tried zero a slept h pos = elim pos [ ]
  sqlite-Tried (suc left) a slept h pos = elim (Result-cases (operation a)) [
    | inl (v, done) ↦ ended (ok v) (unfold sqlite_attempts in ground arith) (won v done)
    | inr (e, bad) ↦ elim (Bool-cases (is_retriable_error e)) [
      | inr never ↦
          ended (err (failed e)) (unfold sqlite_attempts in ground arith) (lost e bad (inl never))
      | inl may ↦ elim (Bool-cases (leb 3 a)) [
        | inl final ↦
            ended (err (failed e)) (unfold sqlite_attempts in ground arith)
              (lost e bad (inr (ground arith)))
        | inr more ↦
            let t =
              sqlite-Tried left (a + 1) (slept ++ (50 * 2 ^ a) ∷ []) (omega arith) (ground arith) in
            record {
              result = t.result;
              delays = (50 * 2 ^ a) ∷ t.delays;
              returned =
                  sqlite-step left a slept e (ground arith) bad may
                  ∙ t.returned
                  ∙ ap (λ d. (t.result, d)) (append_assoc slept ((50 * 2 ^ a) ∷ []) t.delays);
              tries = retry e bad may (ground arith) t.tries;
            }
      ]
    ]
  ]

-- A database operation is tried at most four times: it stops at the first success or permanent
-- error, and otherwise returns the error of the fourth attempt, after 50, 100 and 200 ms. The
-- error behind the loop is never returned.
pub with_sqlite_retry-SqliteTries :
    {T E : Type 0} (operation : ℕ → Result T E) (is_retriable_error : E → Bool)
    → SqliteTries operation is_retriable_error 0
        (with_sqlite_retry operation is_retriable_error).0
        (with_sqlite_retry operation is_retriable_error).1
unfolding with_sqlite_retry
with_sqlite_retry-SqliteTries operation is_retriable_error =
    let t = sqlite-Tried operation is_retriable_error 4 0 [] refl (omega arith) in
    rw t.returned t.tries
