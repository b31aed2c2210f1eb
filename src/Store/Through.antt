-- ===== src/Store/Through.antt =====
-- Relations between two states of the tables, carried over to actions: a round trip that fails, a
-- query and a notification leave the tables alone.
use uran_api.Prelude.{suc, Text, ◌≡◌, refl, Bool, true, false}
use uran_api.Exec.{Result, ok, err}
use uran_api.Exec.Respects.{IsPreorder, Respects, respects_rules}
use uran_api.K8s.{Call}
use uran_api.Store.{Error, Db, World, Channel, statement, query, notify, call, settle}

pub record Through {κ} (R : Db → Db → Type κ) (s t : World) : Type κ where
  pub at : R s.db t.db

module _ {R : Db → Db → Type 0} (po : IsPreorder R) where
  pub Through-IsPreorder : IsPreorder (Through R)
  Through-IsPreorder = record {
    rfl = λ s. record { at = po.rfl s.db };
    trans = λ s t u a b. record { at = po.trans s.db t.db u.db a.at b.at };
  }

  pub Respects-notify : (c : Channel) (p : Text) → Respects (Through R) (notify c p)
  unfolding notify
  Respects-notify c p = record { at = λ w. record { at = go w (w.down w.sent) refl } }
    where
      go : (w : World) (b : Bool) → w.down w.sent ≡ b → R w.db (notify c p w).1.db
      go w true e = rw e (po.rfl w.db)
      go w false e = rw e (po.rfl w.db)

  pub Respects-call : (c : Call) → Respects (Through R) (call c)
  unfolding call
  Respects-call c = record { at = λ w. record { at = go w (w.down w.sent) refl } }
    where
      go : (w : World) (b : Bool) → w.down w.sent ≡ b → R w.db (call c w).1.db
      go w true e = rw e (po.rfl w.db)
      go w false e = rw e (po.rfl w.db)

module _ {A : Type 0} {R : Db → Db → Type 0} (po : IsPreorder R) where
  pub Respects-query : (f : Db → Result Error A) → Respects (Through R) (query f)
  unfolding query
  Respects-query f = record { at = λ w. record { at = go w (w.down w.sent) refl } }
    where
      go : (w : World) (b : Bool) → w.down w.sent ≡ b → R w.db (query f w).1.db
      go w true e = rw e (po.rfl w.db)
      go w false e = rw e (po.rfl w.db)

  settled :
      (w : World) (db : Db) (r : Result Error (A × Db))
      → R db w.db
      → ((a : A) (db' : Db) → r ≡ ok (a, db') → R db db')
      → R db (settle w r).1.db
  settled w db (ok (a, db')) same h = h a db' refl
  settled w db (err e) same h = same

  -- A statement respects `R` if its successful outcomes do.
  pub Respects-statement :
      (f : Db → Result Error (A × Db))
      → ((db : Db) (a : A) (db' : Db) → f db ≡ ok (a, db') → R db db')
      → Respects (Through R) (statement f)
  unfolding statement
  Respects-statement f h = record { at = λ w. record { at = go w (w.down w.sent) refl } }
    where
      go : (w : World) (b : Bool) → w.down w.sent ≡ b → R w.db (statement f w).1.db
      go w true e = rw e (po.rfl w.db)
      go w false e =
          rw e (settled (record w { sent = suc w.sent }) w.db (f w.db) (po.rfl w.db) (h w.db))

pub ruleset through_rules =
    (respects_rules, Through-IsPreorder, Respects-notify, Respects-query, Respects-call)
