-- ===== src/Pointers.antt =====
-- References to connections. A connection object is named by a number; a `ConnectionPtr` is such a
-- number or null. Which objects still exist is decided outside the rooms and sessions: `alive`.
use l_w.Base.{ℕ, Bool, Option, none, some, if◌then◌else◌}

abbrev pub ConnectionPtr : Type 0
ConnectionPtr = Option ℕ

-- `std::weak_ptr<Connection>`: empty, or a reference to an object that may be gone.
abbrev pub WeakPtr : Type 0
WeakPtr = Option ℕ

-- `std::weak_ptr::lock`.
abbrev pub lock : (ℕ → Bool) → WeakPtr → ConnectionPtr
lock alive none = none
lock alive (some c) = if alive c then some c else none
