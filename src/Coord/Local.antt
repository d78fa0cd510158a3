-- ===== src/Coord/Local.antt =====
-- internal/coord/local.go: the in-process coordinator. Several handles (`NewLocal`, `Peer`) share one
-- lease table. TryAcquire holds its handle's mutex and the table's, so it is one step, and so is the
-- end of one term. Close takes the table's mutex for each end alone: besides the whole of it in one
-- step there is its first part, `call_shut`, whose ends are then calls that resign, with the calls of
-- other handles between them. A term is known by its owner, name and token. Its `Done` is closed,
-- with no error, once it is in no handle.
pub mod Terms
pub mod Grant
pub mod End
pub mod Laws
pub mod Fencing
use wave_house.Prelude.{
  ℕ, true, false, [], ◌∷◌, some, none, Bool, List, Option, if◌then◌else◌, ◌+◌, ◌%◌, ◌==◌, ◌&&◌, ◌^◌,
}
use wave_house.Prelude.Bytes.{Bytes, bytes_eq, lookup}
use wave_house.Prelude.Maps.{put, delete}

pub record Term : Type 0 where
  pub owner : ℕ
  pub name : Bytes
  pub token : ℕ

unfoldable pub same_term : Term → Term → Bool
same_term a b = a.owner == b.owner && bytes_eq a.name b.name && a.token == b.token

-- The set of a handle's terms.
unfoldable pub has_term : Term → List Term → Bool
has_term t [] = false
has_term t (u ∷ us) = let later = has_term t us in if same_term u t then true else later

unfoldable pub remove_term : Term → List Term → List Term
remove_term t [] = []
remove_term t (u ∷ us) = let rest = remove_term t us in if same_term u t then rest else u ∷ rest

pub record LocalTable : Type 0 where
  pub held : List (Bytes × Term)
  pub tokens : List (Bytes × ℕ)

pub record Local : Type 0 where
  pub closed : Bool
  pub terms : List Term

-- All handles over one table, by number.
pub record System : Type 0 where
  pub table : LocalTable
  pub handle : ℕ → Local

abbrev pub new_system : System
new_system = record {
  table = record { held = []; tokens = [] };
  handle = λ h. record { closed = false; terms = [] };
}

abbrev pub set_handle : ℕ → Local → (ℕ → Local) → ℕ → Local
set_handle h l handle i = if h == i then l else handle i

abbrev pub count_or_zero : Option ℕ → ℕ
count_or_zero none = 0
count_or_zero (some n) = n

unfoldable pub last_token : Bytes → LocalTable → ℕ
last_token name table = count_or_zero (lookup name table.tokens)

pub data Outcome : Type 0 where
  acquired : Term → Outcome
  cancelled : Outcome
  err_closed : Outcome
  err_held : Outcome

abbrev pub next_token : Bytes → LocalTable → ℕ
next_token name table = (last_token name table + 1) % 2 ^ 64

abbrev pub new_term : System → ℕ → Bytes → Term
new_term s h name = record { owner = h; name = name; token = next_token name s.table }

unfoldable pub grant : System → ℕ → Bytes → System
grant s h name = record {
  table = record {
    held = put name (new_term s h name) s.table.held;
    tokens = put name (next_token name s.table) s.table.tokens;
  };
  handle =
      set_handle h
        (record { closed = (s.handle h).closed; terms = new_term s h name ∷ (s.handle h).terms })
        s.handle;
}

abbrev pub grant_free : System → ℕ → Bytes → Option Term → System × Outcome
grant_free s h name (some t) = (s, err_held)
grant_free s h name none = (grant s h name, acquired (new_term s h name))

unfoldable pub try_acquire : System → ℕ → Bool → Bytes → System × Outcome
try_acquire s h is_cancelled name =
    if is_cancelled
    then (s, cancelled)
    else if (s.handle h).closed
    then (s, err_closed)
    else grant_free s h name (lookup name s.table.held)

abbrev pub is_some : Option Term → Bool
is_some none = false
is_some (some t) = true

-- `Held`, with no answer where the context is cancelled.
unfoldable pub held : System → Bool → Bytes → Option Bool
held s is_cancelled name = if is_cancelled then none else some (is_some (lookup name s.table.held))

unfoldable pub end_locked : System → ℕ → Term → System
end_locked s h t =
    if has_term t (s.handle h).terms
    then record {
      table = record { held = delete t.name s.table.held; tokens = s.table.tokens };
      handle =
          set_handle h
            (record { closed = (s.handle h).closed; terms = remove_term t (s.handle h).terms })
            s.handle;
    }
    else s

unfoldable pub end_each : System → ℕ → List Term → System
end_each s h [] = s
end_each s h (t ∷ ts) = end_each (end_locked s h t) h ts

abbrev pub shut : System → ℕ → System
shut s h = record {
  table = s.table;
  handle = set_handle h (record { closed = true; terms = (s.handle h).terms }) s.handle;
}

unfoldable pub close : System → ℕ → System
close s h = end_each (shut s h) h (s.handle h).terms

unfoldable pub resign : System → Term → System
resign s t = end_locked s t.owner t

pub data Call : Type 0 where
  call_acquire : ℕ → Bool → Bytes → Call
  call_resign : Term → Call
  call_close : ℕ → Call
  call_shut : ℕ → Call

unfoldable pub step : System → Call → System
step s (call_acquire h is_cancelled name) = (try_acquire s h is_cancelled name).0
step s (call_resign t) = resign s t
step s (call_close h) = close s h
step s (call_shut h) = shut s h

unfoldable pub run : System → List Call → System
run s [] = s
run s (c ∷ cs) = run (step s c) cs
