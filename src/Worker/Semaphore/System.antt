-- ===== src/Worker/Semaphore/System.antt =====
-- worker/semaphore.go, casSem: many workers, and a bucket that takes a write only at the revision
-- that the write expects.
use packtrail.Prelude.{ℕ, ◌≤◌, ◌<◌, ◌≡◌, refl, subst, some, List, [], ◌∷◌, arith}
use packtrail.GoMap.{empty}
use packtrail.Worker.Semaphore.{Holders, Op, acquire, apply_op}

-- the value and its revision; 0 and no holder before the key is created
pub record Bucket : Type 0 where
  pub rev : ℕ
  pub holders : Holders

-- an update that has read the bucket
pub record Reader : Type 0 where
  pub op : Op
  pub rev : ℕ
  pub holders : Holders

-- what became of the value: an update that was written, or the key removed by its TTL
pub data Change : Type 0 where
  update : Op → Change
  expiry : Change

-- the bucket, its highest revision so far, the updates under way, and the changes, newest first
pub record System : Type 0 where
  pub bucket : Bucket
  pub top : ℕ
  pub readers : List Reader
  pub changes : List Change

-- a limit of at most this many slots
abbrev pub Within : ℕ → Op → Type 0
Within limit (acquire m now lease holder) = m ≤ limit
Within limit _ = Unit

pub data In (r : Reader) : List Reader → Type 0 where
  here : {rs : List Reader} → In r (r ∷ rs)
  there : {q : Reader} {rs : List Reader} → In r rs → In r (q ∷ rs)

-- A read of any worker, at any time; a write that the bucket takes; or the end of the key's TTL,
-- after which a read finds no key. A write that the bucket does not take, and a worker that crashes,
-- change nothing.
pub data Step (limit : ℕ) : System → System → Type 0 where
  read :
      (s : System) (op : Op)
      → Within limit op
      → Step limit s (record s {
        readers = record { op = op; rev = s.bucket.rev; holders = s.bucket.holders } ∷ s.readers;
      })
  swap :
      (s : System) (r : Reader) (rev : ℕ) (h : Holders)
      → In r s.readers
      → r.rev ≡ s.bucket.rev
      → apply_op r.op r.holders ≡ some h
      → s.top < rev
      → Step limit s (record s {
        bucket = record { rev = rev; holders = h };
        top = rev;
        changes = update r.op ∷ s.changes;
      })
  expire :
      (s : System)
      → Step limit s
          (record s { bucket = record { rev = 0; holders = empty }; changes = expiry ∷ s.changes })

-- before the key is created
abbrev pub initial : System
initial = record {
  bucket = record { rev = 0; holders = empty };
  top = 0;
  readers = [];
  changes = [];
}

pub data Reach (limit : ℕ) : System → Type 0 where
  begin : Reach limit initial
  next : {s t : System} → Reach limit s → Step limit s t → Reach limit t

-- The value that these changes make, the oldest first: each update on what the one before wrote.
pub data Atomic (limit : ℕ) : List Change → Holders → Type 0 where
  created : Atomic limit [] empty
  updated :
      {cs : List Change} {h : Holders}
      → Atomic limit cs h
      → (op : Op) → Within limit op
      → (k : Holders) → apply_op op h ≡ some k
      → Atomic limit (update op ∷ cs) k
  expired : {cs : List Change} {h : Holders} → Atomic limit cs h → Atomic limit (expiry ∷ cs) empty

-- a reader has seen the bucket as it is, or another revision; none stands for no key
record IsFresh (limit : ℕ) (top : ℕ) (b : Bucket) (r : Reader) : Type 0 where
  within : Within limit r.op
  past : r.rev ≤ top
  unborn : r.rev ≡ 0 → r.holders ≡ empty
  current : r.rev ≡ b.rev → r.holders ≡ b.holders

record Inv (limit : ℕ) (s : System) : Type 0 where
  atomic : Atomic limit s.changes s.bucket.holders
  past : s.bucket.rev ≤ s.top
  unborn : s.bucket.rev ≡ 0 → s.bucket.holders ≡ empty
  fresh : (r : Reader) → In r s.readers → IsFresh limit s.top s.bucket r

module _ (limit : ℕ) where
  read-IsFresh :
      {s : System} (inv : Inv limit s) (op : Op) (q : Reader)
      → Within limit op
      → In q (record { op = op; rev = s.bucket.rev; holders = s.bucket.holders } ∷ s.readers)
      → IsFresh limit s.top s.bucket q
  read-IsFresh inv op q w here = record {
    within = w;
    past = inv.past;
    unborn = inv.unborn;
    current = λ e. refl;
  }
  read-IsFresh inv op q w (there i) = inv.fresh q i

  Step-Inv : {s t : System} → Inv limit s → Step limit s t → Inv limit t
  Step-Inv inv (read s op w) = record {
    atomic = inv.atomic;
    past = inv.past;
    unborn = inv.unborn;
    fresh = λ q i. read-IsFresh inv op q w i;
  }
  Step-Inv inv (swap s r rev h i e a lt) =
      let seen = inv.fresh r i in
      record {
        atomic =
            updated inv.atomic r.op seen.within h
              (subst (λ v. apply_op r.op v ≡ some h) (seen.current e) a);
        past = omega arith;
        unborn = λ z. absurd (omega (arith, z, lt));
        fresh = λ q j.
            let old = inv.fresh q j in
            record {
              within = old.within;
              past = omega (arith, old.past, lt);
              unborn = old.unborn;
              current = λ same. absurd (omega (arith, old.past, lt, same));
            };
      }
  Step-Inv inv (expire s) = record {
    atomic = expired inv.atomic;
    past = omega arith;
    unborn = λ z. refl;
    fresh = λ q j.
        let old = inv.fresh q j in
        record { within = old.within; past = old.past; unborn = old.unborn; current = old.unborn };
  }

  Reach-Inv : {s : System} → Reach limit s → Inv limit s
  Reach-Inv begin = record {
    atomic = created;
    past = omega arith;
    unborn = λ z. refl;
    fresh = λ r i. elim i [ ];
  }
  Reach-Inv (next r st) = Step-Inv (Reach-Inv r) st

-- However the reads and writes of the workers interleave, and whenever the key expires, the value in
-- the bucket is the one that all the updates written since make one after the other, in the order
-- they were written, each on what the one before wrote: none of them is lost.
pub Reach-Atomic :
    (limit : ℕ) (s : System) → Reach limit s → Atomic limit s.changes s.bucket.holders
Reach-Atomic limit s r = (Reach-Inv limit r).atomic
