-- ===== src/Run/Moves.antt =====
-- What every run of a program does to the world, as a relation between the world before and after.
use iot_ftp_upload_gateway.Base.{ℕ, ◌+◌}
use iot_ftp_upload_gateway.Io.{ErrorKind, IoResult, ok, err}
use iot_ftp_upload_gateway.Run.{
  Env, World, Flow, go, stop, Run, after, ◌>>=◌, pure, halt, ask, get, change, scoped, guarded,
  unless_done,
}

pub record Moves {A : Type 0} (R : World → World → Type 0) (m : Run A) : Type 0 where
  pub from : (env : Env) (w : World) → R w (m env w).1

pub record Order (R : World → World → Type 0) : Type 0 where
  pub same : (w : World) → R w w
  pub both : {u v w : World} → R u v → R v w → R u w

module _ {R : World → World → Type 0} (order : Order R) where
  after-R :
      {A B : Type 0} (w : World) (x : Flow A × World) (k : A → World → Flow B × World)
      → R w x.1
      → ((a : A) (v : World) → R v (k a v).1)
      → R w (after x k).1
  after-R w (go a, v) k h next = order.both h (next a v)
  after-R w (stop, v) k h next = h

  pub then_moves :
      {A B : Type 0} {m : Run A} {f : A → Run B}
      → Moves R m
      → ((a : A) → Moves R (f a))
      → Moves R (m >>= f)
  then_moves {m = m} {f = f} first next = record {
    from = λ env w.
        after-R w (m env w) (λ a v. f a env v) (first.from env w) (λ a v. (next a).from env v);
  }

  pub pure_moves : {A : Type 0} (a : A) → Moves R (pure a)
  pure_moves a = record { from = λ env w. order.same w }

  pub halt_moves : (A : Type 0) → Moves {A = A} R halt
  halt_moves A = record { from = λ env w. order.same w }

  pub get_moves : {A : Type 0} (f : World → A) → Moves R (get f)
  get_moves f = record { from = λ env w. order.same w }

pub ask_moves :
    {R : World → World → Type 0} {A : Type 0} (f : Env → ℕ → A)
    → ((w : World) → R w (record w { time = w.time + 1 }))
    → Moves R (ask f)
ask_moves f h = record { from = λ env w. h w }

pub change_moves :
    {R : World → World → Type 0} (f : World → World)
    → ((w : World) → R w (f w))
    → Moves R (change f)
change_moves f h = record { from = λ env w. h w }

-- A scope moves the world as its body does, and then as its drop does.
pub scoped_moves :
    {R S : World → World → Type 0} {A : Type 0} {m : Run A} (drop : World → World)
    → Moves S m
    → ((w v : World) → S w v → R w (drop v))
    → Moves R (scoped drop m)
scoped_moves {m = m} drop h k = record { from = λ env w. k w (m env w).1 (h.from env w) }

unless_done-R :
    {R : World → World → Type 0} {A : Type 0} (order : Order R) (drop : World → World)
    → ((w : World) → R w (drop w))
    → (w : World) (x : Flow A × World) → R w x.1
    → R w (unless_done drop x).1
unless_done-R order drop h w (go a, v) k = k
unless_done-R order drop h w (stop, v) k = order.both k (h v)

pub guarded_moves :
    {R : World → World → Type 0} {A : Type 0} {m : Run A} (order : Order R) (drop : World → World)
    → ((w : World) → R w (drop w))
    → Moves R m
    → Moves R (guarded drop m)
guarded_moves {m = m} order drop h k = record {
  from = λ env w. unless_done-R order drop h w (m env w) (k.from env w);
}

pub io_moves :
    {R : World → World → Type 0} {A B : Type 0} {f : A → Run B} {g : ErrorKind → Run B}
    → ((a : A) → Moves R (f a))
    → ((k : ErrorKind) → Moves R (g k))
    → (x : IoResult A) → Moves R (elim x [ ok a ↦ f a | err k ↦ g k ])
io_moves hf hg (ok a) = hf a
io_moves hf hg (err k) = hg k

after-T :
    {R S T : World → World → Type 0} {A B : Type 0}
    → ((u v : World) → R u v → T u v)
    → ((u v w : World) → R u v → S v w → T u w)
    → (w : World) (x : Flow A × World) (k : A → World → Flow B × World) → R w x.1
    → ((a : A) (v : World) → S v (k a v).1)
    → T w (after x k).1
after-T halted both w (go a, v) k h next = both w v (k a v).1 h (next a v)
after-T halted both w (stop, v) k h next = halted w v h

-- Two runs in a row, where the second moves the world in a way of its own.
pub chain_moves :
    {R S T : World → World → Type 0} {A B : Type 0} {m : Run A} {f : A → Run B}
    → ((u v : World) → R u v → T u v)
    → ((u v w : World) → R u v → S v w → T u w)
    → Moves R m
    → ((a : A) → Moves S (f a))
    → Moves T (m >>= f)
chain_moves {m = m} {f = f} halted both first next = record {
  from = λ env w.
      after-T halted both w (m env w) (λ a v. f a env v) (first.from env w)
        (λ a v. (next a).from env v);
}

pub weaken :
    {R S : World → World → Type 0} {A : Type 0} {m : Run A}
    → ((u v : World) → R u v → S u v)
    → Moves R m
    → Moves S m
weaken {m = m} h k = record { from = λ env w. h w (m env w).1 (k.from env w) }
