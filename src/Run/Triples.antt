-- ===== src/Run/Triples.antt =====
-- What a run comes to from a world of a kind, given whether it went on or stopped.
use iot_ftp_upload_gateway.Run.{Env, World, Flow, go, stop, Run, after, ◌>>=◌}
use iot_ftp_upload_gateway.Run.Moves.{Moves}

pub record Triple {A : Type 0} (Pre : World → Type 0) (m : Run A) (Post : Flow A → World → Type 0)
    : Type 0 where
  pub from : (env : Env) (w : World) → Pre w → Post (m env w).0 (m env w).1

after-Post :
    {A B : Type 0} (Mid : Flow A → World → Type 0) (Post : Flow B → World → Type 0)
    → ((w : World) → Mid stop w → Post stop w)
    → (x : Flow A × World) (k : A → World → Flow B × World) → Mid x.0 x.1
    → ((a : A) (v : World) → Mid (go a) v → Post (k a v).0 (k a v).1)
    → Post (after x k).0 (after x k).1
after-Post mid post halted (go a, v) k h next = next a v h
after-Post mid post halted (stop, v) k h next = halted v h

pub then_triple :
    {A B : Type 0} {Pre : World → Type 0} {Mid : Flow A → World → Type 0}
    {Post : Flow B → World → Type 0} {m : Run A} {f : A → Run B}
    → Triple Pre m Mid
    → ((w : World) → Mid stop w → Post stop w)
    → ((a : A) → Triple (Mid (go a)) (f a) Post)
    → Triple Pre (m >>= f) Post
then_triple {Mid = Mid} {Post = Post} {m = m} {f = f} first halted next = record {
  from = λ env w p.
      after-Post Mid Post halted (m env w) (λ a v. f a env v) (first.from env w p)
        (λ a v h. (next a).from env v h);
}

pub triple_of_moves :
    {A : Type 0} {R : World → World → Type 0} {Pre : World → Type 0}
    {Post : Flow A → World → Type 0} {m : Run A}
    → Moves R m
    → ((r : Flow A) (u v : World) → Pre u → R u v → Post r v)
    → Triple Pre m Post
triple_of_moves {m = m} moves h = record {
  from = λ env w p. h (m env w).0 w (m env w).1 p (moves.from env w);
}
