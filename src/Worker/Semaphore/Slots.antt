-- ===== src/Worker/Semaphore/Slots.antt =====
-- worker/semaphore.go: how many jobs hold a slot, and who can take a slot away.
use packtrail.Prelude.{
  ℕ, suc, ◌+◌, ◌≤◌, ◌≡◌, ◌≢◌, subst, String, true, some, List, [], ◌∷◌, arith, eq_iff, length,
  Bool-cases, inl, inr,
}
use packtrail.GoMap.{empty, get, put, delete, get-put, get-delete}
use packtrail.Worker.Semaphore.{
  Holders, drop_expired, grant, renew, release, Op, acquire, renewal, done, apply_op,
}
use packtrail.Worker.Semaphore.System.{
  System, Within, Change, Reach, Atomic, created, updated, expired, Reach-Atomic,
}
use packtrail.GoMap.Count.{
  is_held, AtMost, KeysIn, AtMost-length, AtMost-fewer, AtMost-grow, AtMost-put, put_again,
  delete-KeysIn,
}

drop-held : (now : ℕ) (h : Holders) → KeysIn (drop_expired now h) h
unfolding drop_expired get
drop-held now [] x e = e
drop-held now ((k, exp) ∷ h) x e = ground (arith, drop-held now h x)

grant-AtMost :
    (limit m now lease : ℕ) (holder : String) (h k : Holders)
    → m ≤ limit
    → AtMost limit h
    → grant m now lease holder h ≡ some k
    → AtMost limit k
unfolding grant
grant-AtMost limit m now lease holder h k le most e =
    let live = drop_expired now h in
    elim (Bool-cases (is_held live holder)) [
      | inl held ↦ subst (AtMost limit) (ground (arith, held)) (
          AtMost-fewer limit live (put live holder (now + lease))
            (put_again live holder (now + lease) held)
            (AtMost-fewer limit h live (drop-held now h) most))
      | inr new ↦ subst (AtMost limit) (ground (arith, new)) (
          AtMost-grow (suc (length live)) limit (put live holder (now + lease))
            (ground (arith, new))
            (AtMost-put (length live) live holder (now + lease) (AtMost-length live)))
    ]

op-AtMost :
    (limit : ℕ) (op : Op) (h k : Holders)
    → Within limit op
    → AtMost limit h
    → apply_op op h ≡ some k
    → AtMost limit k
unfolding apply_op renew release
op-AtMost limit (acquire m now lease holder) h k w most e =
    grant-AtMost limit m now lease holder h k w most e
op-AtMost limit (renewal now lease holder) h k w most e = elim (Bool-cases (is_held h holder)) [
  | inl held ↦ subst (AtMost limit) (ground (arith, held)) (
      AtMost-fewer limit h (put h holder (now + lease)) (put_again h holder (now + lease) held)
        most)
  | inr new ↦ absurd (ground (arith, new))
]
op-AtMost limit (done holder) h k w most e =
    subst (AtMost limit) (ground arith)
      (AtMost-fewer limit h (delete h holder) (delete-KeysIn h holder) most)

Atomic-AtMost : (limit : ℕ) (cs : List Change) (h : Holders) → Atomic limit cs h → AtMost limit h
Atomic-AtMost limit _ _ created = AtMost-grow 0 limit empty (omega arith) (AtMost-length empty)
Atomic-AtMost limit _ _ (updated {cs} {h} a op w k e) =
    op-AtMost limit op h k w (Atomic-AtMost limit cs h a) e
Atomic-AtMost limit _ _ (expired a) = AtMost-grow 0 limit empty (omega arith) (AtMost-length empty)

-- However the reads and writes of the workers interleave: while no acquire is made with a limit
-- above `limit`, at most that many different jobs hold a slot of the key.
pub slots_bounded : (limit : ℕ) (s : System) → Reach limit s → AtMost limit s.bucket.holders
slots_bounded limit s r = Atomic-AtMost limit s.changes s.bucket.holders (Reach-Atomic limit s r)

-- the updates that leave job x, whose lease ends at exp, its slot: an acquire before that time, any
-- renewal, and the release of another job
abbrev pub Spares : Op → String → ℕ → Type 0
Spares (acquire m now lease holder) x exp = now ≤ exp
Spares (renewal now lease holder) x exp = Unit
Spares (done holder) x exp = holder ≢ x

drop_keeps :
    (now : ℕ) (h : Holders) (x : String) (exp : ℕ)
    → get h x ≡ some exp
    → now ≤ exp
    → is_held (drop_expired now h) x ≡ true
unfolding drop_expired get
drop_keeps now [] x exp e le = absurd (cc)
drop_keeps now ((k, w) ∷ h) x exp e le = ground (arith, drop_keeps now h x exp)

put_keeps :
    (h : Holders) (k : String) (v : ℕ) (x : String)
    → is_held h x ≡ true
    → is_held (put h k v) x ≡ true
put_keeps h k v x e = ground (arith, get-put h k x v)

-- No update of another job takes a slot away whose lease has not ended: a job that holds a slot
-- still holds one after any acquire that reads a clock not after its lease, any renewal, and the
-- release of any other job.
pub slot_kept :
    (op : Op) (h k : Holders) (x : String) (exp : ℕ)
    → apply_op op h ≡ some k
    → get h x ≡ some exp
    → Spares op x exp
    → is_held k x ≡ true
unfolding apply_op grant renew release
slot_kept (acquire m now lease holder) h k x exp e g le =
    ground
      (arith, drop_keeps now h x exp g le, put_keeps (drop_expired now h) holder (now + lease) x)
slot_kept (renewal now lease holder) h k x exp e g u =
    ground (arith, put_keeps h holder (now + lease) x)
slot_kept (done holder) h k x exp e g other = ground (arith, get-delete h holder x, eq_iff holder x)
