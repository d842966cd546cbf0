-- ===== src/Epoll/Table.antt =====
-- A kernel whose state is the interest list itself: the promises can be met.
use reactor_server.Base.{ℕ, refl, Bool, true, false, Option, none, some, ◌==◌, if◌then◌else◌, arith}
use reactor_server.Epoll.Kernel.{Kernel, Laws, CtlOp, add, mod_, del, entry}

pub record Table : Type 0 where
  pub list : ℕ → Option ℕ
  pub signalled : Bool
  pub seconds : ℕ

abbrev is_some : Option ℕ → Bool
is_some none = false
is_some (some e) = true

abbrev allowed : CtlOp → Option ℕ → Bool
allowed add none = true
allowed add (some e) = false
allowed mod_ o = is_some o
allowed del o = is_some o

abbrev change : CtlOp → ℕ → ℕ → Table → Table
change op fd events t = record t { list = λ j. if fd == j then entry op events else t.list j }

abbrev pub table : Kernel
table = record {
  State = Table;
  ctl = λ op fd events t.
      (if allowed op (t.list fd) then change op fd events t else t, allowed op (t.list fd));
  write_event = λ t. record t { signalled = true };
  read_event = λ t. record t { signalled = false };
  arm_timer = λ n t. record t { seconds = n };
}

abbrev pub table_laws : Laws table
table_laws = record {
  watched = λ t. t.list;
  pending = λ t. t.signalled;
  armed = λ t. t.seconds;
  changes = λ op fd events j s h. ground arith;
  keeps = λ op fd events j s h. ground arith;
  mod_missing = λ fd events s h. ground arith;
  del_missing = λ fd events s h. ground arith;
  add_present = λ fd events e s h. ground arith;
  mod_present = λ fd events e s h. ground arith;
  del_present = λ fd events e s h. ground arith;
  write_pending = λ s. refl;
  read_pending = λ s. refl;
  write_watched = λ j s. refl;
  read_watched = λ j s. refl;
  arm_armed = λ n s. refl;
  arm_watched = λ n j s. refl;
  arm_pending = λ n s. refl;
  ctl_armed = λ op fd events s. ground arith;
}

-- Nothing is watched.
abbrev pub empty_table : Table
empty_table = record { list = λ j. none; signalled = false; seconds = 0 }
