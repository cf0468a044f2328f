-- ===== src/Plumbing/Source.antt =====
-- `read(2)`, which the program calls and does not implement.
use viamillipede.Prelude.{ℕ, ◌≤◌, ◌<◌, ◌≡◌, List, [], ◌++◌, length}

-- `got bs` stores `bs` and returns their number; `failed e` returns -1 and sets `errno` to `e`.
pub data Reply : Type 0 where
  got : List ℕ → Reply
  failed : ℕ → Reply

-- A descriptor that is read from. `pending` is what will still be read from it: it is in no program
-- variable, and only serves to say that bytes are delivered once and in order.
pub record Source : Type 1 where
  pub State : Type 0
  pub read : State → ℕ → Reply × State
  pub pending : State → List ℕ
  -- no more than was asked for
  pub read-le : (s s' : State) (n : ℕ) (bs : List ℕ) → read s n ≡ (got bs, s') → length bs ≤ n
  pub read-pending :
      (s s' : State) (n : ℕ) (bs : List ℕ) → read s n ≡ (got bs, s') → pending s ≡ bs ++ pending s'
  -- 0 is the end of the file
  pub read-eof : (s s' : State) (n : ℕ) → 0 < n → read s n ≡ (got [], s') → pending s ≡ []
  pub read-errno : (s s' : State) (n e : ℕ) → read s n ≡ (failed e, s') → 0 < e

module _ (src : Source) where
  open src use {State, read}

  -- Reads that gave something, or the end of the input, lead from `s₀` to here.
  pub data ReadsTo (s₀ : State) : State → Type 0 where
    no_read : ReadsTo s₀ s₀
    one_more :
        {s s' : State} (n : ℕ) (bs : List ℕ)
        → ReadsTo s₀ s
        → read s n ≡ (got bs, s')
        → ReadsTo s₀ s'

  pub ReadsTo-trans : {a b c : State} → ReadsTo a b → ReadsTo b c → ReadsTo a c
  ReadsTo-trans p no_read = p
  ReadsTo-trans p (one_more n bs q r) = one_more n bs (ReadsTo-trans p q) r

  -- A read fails, behind such reads.
  pub record ReadFails (s₀ : State) : Type 0 where
    pub before : State
    pub after : State
    pub size : ℕ
    pub error : ℕ
    pub reached : ReadsTo s₀ before
    pub fails : read before size ≡ (failed error, after)

  pub ReadFails-later : {a b : State} → ReadsTo a b → ReadFails b → ReadFails a
  ReadFails-later p f = record {
    before = f.before;
    after = f.after;
    size = f.size;
    error = f.error;
    reached = ReadsTo-trans p f.reached;
    fails = f.fails;
  }
