-- ===== src/Server/Enroll/Waiting.antt =====
-- What an enrolment does to the list of requests: how many wait, and the codes in it.
use portapixel.Prelude.{
  if-case, ℕ, zero, suc, subst, ◌≤◌, ◌≡◌, refl, ap, arith, inl, inr, String, Bool, true, false, not,
  ◌&&◌, Option, none, some, List, [], ◌∷◌, leb, ◌==◌, Bool-cases, Bytes, bytes_eq,
}
use mathlib.Core.Option.{some-injective}
use portapixel.Server.Table.{update_where, select_where, has_where, count_where}
use portapixel.Server.Table.Keys.{
  count-update_where, count-select_where, count-snoc, Distinct, Distinct-update_where,
  Distinct-select_where, Distinct-snoc,
}
use portapixel.Server.Rows.{
  max_pending, PendingRow, Tables, Ensures, is_device, is_waiting, last_pending,
}
use portapixel.Server.Enroll.{
  max_tries, Request, Visit, Answer, is_new, has_code, new_pairing_code, free_code, sweep_pending,
  touch_enrolled, pair_row, upsert_device,
}
use portapixel.Server.Enroll.Invariant.{Stable-enroll}
use portapixel.Server.Enroll.Rules.{
  holds_claim, ask_again, new_pending, insert_pending, pending_of, make_pending, enroll, poll,
}

abbrev pub same_code : PendingRow → PendingRow → Bool
same_code p q = has_code p.pairing_code q

-- At most 200 requests wait, and no two requests show one code.
pub record Fine (rows : List PendingRow) : Type 0 where
  pub few : count_where is_waiting rows ≤ max_pending
  pub apart : Distinct same_code rows

-- A change that neither changes a code nor makes an approved request wait.
pub record Plain (change : PendingRow → PendingRow) : Type 0 where
  pub code : (p : PendingRow) → (change p).pairing_code ≡ p.pairing_code
  pub waits : (p : PendingRow) → is_waiting (change p) ≡ true → is_waiting p ≡ true

pub Fine-update_where :
    (test : PendingRow → Bool) (change : PendingRow → PendingRow) (rows : List PendingRow)
    → Plain change
    → Fine rows
    → Fine (update_where test change rows)
Fine-update_where test change rows w f = record {
  few = omega (arith, f.few, count-update_where is_waiting test change rows w.waits);
  apart =
      Distinct-update_where same_code test change rows
        (λ x y. ap (λ c. bytes_eq c y.pairing_code) (w.code x))
        (λ x y. ap (λ c. bytes_eq y.pairing_code c) (w.code x)) f.apart;
}

pub Fine-select_where :
    (test : PendingRow → Bool) (rows : List PendingRow) → Fine rows → Fine (select_where test rows)
Fine-select_where test rows f = record {
  few = omega (arith, f.few, count-select_where is_waiting test rows);
  apart = Distinct-select_where same_code test rows f.apart;
}

pub bytes_eq-swap : (xs ys : Bytes) → bytes_eq xs ys ≡ bytes_eq ys xs
unfolding bytes_eq
bytes_eq-swap [] [] = refl
bytes_eq-swap [] (y ∷ ys) = refl
bytes_eq-swap (x ∷ xs) [] = refl
bytes_eq-swap (x ∷ xs) (y ∷ ys) = ground (arith, bytes_eq-swap xs ys)

-- `freeCode` gives a code that no request holds.
free_code-has_where :
    (tries : ℕ) (draws : ℕ → Bytes) (rows : List PendingRow) (code : Bytes)
    → free_code tries draws rows ≡ some code
    → has_where (has_code code) rows ≡ false
unfolding free_code
free_code-has_where zero draws rows code h = absurd (cc)
free_code-has_where (suc tries) draws rows code h =
    elim (Bool-cases (has_where (has_code (new_pairing_code (draws 0))) rows)) [
      | inl e ↦ free_code-has_where tries (λ k. draws (suc k)) rows code (rw e at h)
      | inr e ↦
          let same : some (new_pairing_code (draws 0)) ≡ some code = rw e at h in
          subst (λ c. has_where (has_code c) rows ≡ false) (some-injective _ _ same) e
    ]

pub Fine-upsert_device :
    (req : Request) (ip : String) (now group : ℕ) (take_group : Bool) (d : Tables)
    → Fine d.pendings
    → Fine (upsert_device req ip now group take_group d).pendings
unfolding upsert_device
Fine-upsert_device req ip now group take_group d f =
    let F : Tables → Type 0 = λ t. Fine t.pendings in
    if-case F (has_where (is_new req.device_id) d.devices) _ _ (λ e. f)
      (λ e. if-case F (has_where (is_device req.device_id) d.devices) _ _ (λ k. f) (λ k. f))

module _ (hash : String → String) (req : Request) (v : Visit) where
  abbrev FineAnswer : Answer → Type 0
  FineAnswer a = Fine a.tables.pendings

  Fine-insert_pending :
      (token_id : ℕ) (collides : Bytes) (d : Tables) (code : Option Bytes)
      → leb max_pending (count_where is_waiting d.pendings) ≡ false
      → free_code max_tries v.draws d.pendings ≡ code
      → Fine d.pendings
      → Ensures FineAnswer (insert_pending hash req v token_id collides d code)
  unfolding insert_pending new_pending
  Fine-insert_pending token_id collides d none less free f = tt
  Fine-insert_pending token_id collides d (some code) less free f =
      let row = new_pending hash req v token_id collides code (suc (last_pending d.pendings)) in
      if-case (Ensures FineAnswer) (has_where (holds_claim hash v) d.pendings) _ _ (λ e. tt)
        (λ e. record {
          few = ground (arith, less, count-snoc is_waiting d.pendings row);
          apart =
              Distinct-snoc same_code d.pendings row
                (λ x y. bytes_eq-swap y.pairing_code x.pairing_code)
                (free_code-has_where max_tries v.draws d.pendings code free) f.apart;
        })

  Fine-pending_of :
      (token_id : ℕ) (collides : Bytes) (d : Tables) (found : Option PendingRow)
      → Fine d.pendings
      → Ensures FineAnswer (pending_of hash req v token_id collides d found)
  unfolding pending_of ask_again
  Fine-pending_of token_id collides d none f =
      if-case (Ensures FineAnswer) (leb max_pending (count_where is_waiting d.pendings)) _ _
        (λ e. tt) (λ e. Fine-insert_pending token_id collides d _ e refl f)
  Fine-pending_of token_id collides d (some p) f =
      if-case (Ensures FineAnswer)
        (has_where (λ q. not (q.id == p.id) && holds_claim hash v q) d.pendings) _ _ (λ e. tt)
        (λ e.
          Fine-update_where _ (ask_again hash req v token_id collides) d.pendings
            (record { code = λ q. refl; waits = λ q w. w }) f)

  Fine-make_pending :
      (token_id : ℕ) (collides : Bytes) (d : Tables)
      → Fine d.pendings
      → Ensures FineAnswer (make_pending hash req v token_id collides d)
  unfolding make_pending
  Fine-make_pending token_id collides d f = Fine-pending_of token_id collides d _ f

  Fine-pair_row :
      (token_hash : String) (d : Tables)
      → Fine d.pendings
      → Ensures (λ t. Fine t.pendings) (pair_row req v token_hash d)
  unfolding pair_row touch_enrolled
  Fine-pair_row token_hash d f =
      if-case (Ensures (λ (t : Tables). Fine t.pendings))
        (has_where (is_device req.device_id) (touch_enrolled req v d).devices) _ _
        (λ e. Fine-select_where _ d.pendings f) (λ e. tt)

  pub Fine-enroll :
      (d : Tables) → Fine d.pendings → Ensures (λ a. Fine a.tables.pendings) (enroll hash req v d)
  unfolding sweep_pending touch_enrolled poll
  Fine-enroll d f =
      Stable-enroll hash req v (λ t. Fine t.pendings)
        (record {
          sweep = λ t g. Fine-select_where _ t.pendings g;
          touch = λ t g. g;
          pair = Fine-pair_row;
          upsert = λ group t g. Fine-upsert_device req v.ip v.now group true t g;
          count = λ id t g. g;
          asks = λ id t g.
              Fine-update_where _ (poll req v) t.pendings
                (record { code = λ q. refl; waits = λ q w. w }) g;
          queues = λ id collides t fits g. Fine-make_pending id collides t g;
        })
        d f
