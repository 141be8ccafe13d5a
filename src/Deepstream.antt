-- ===== src/Deepstream.antt =====
-- The child process that runs the Bridge: agent/src/weapon_detection_agent/deepstream/
-- process_manager.py and the options that deepstream/config_generator.py may write. A process is given
-- by the configuration `C` that it has read when it was started.
use edge_weapon_detection_pl.Base.{
  ℕ, String, Bool, true, false, ◌&&◌, not, Option, none, some, List, [], ◌∷◌, nat_beq,
  if◌then◌else◌,
}
use edge_weapon_detection_pl.Base.Text.{codes}

pub record ProcessManager (C : Type 0) : Type 0 where
  pub process : Option C
  pub stopping : Bool
  pub log_open : Bool

pub data StartError : Type 0 where
  already_running spawn_failed : StartError

module _ {C : Type 0} where
  abbrev pub create : ProcessManager C
  create = record { process = none; stopping = false; log_open = false }

  -- `spawn_fails` says that the log cannot be opened or the child cannot be launched.
  abbrev pub launch : C → Bool → ProcessManager C → ProcessManager C × Option StartError
  launch config true m = (m, some spawn_failed)
  launch config false m =
      (record { process = some config; stopping = false; log_open = true }, none)

  abbrev pub start_process :
      C → Bool → ProcessManager C → Option C → ProcessManager C × Option StartError
  start_process config spawn_fails m (some running) = (m, some already_running)
  start_process config spawn_fails m none = launch config spawn_fails m

  unfoldable pub start : C → Bool → ProcessManager C → ProcessManager C × Option StartError
  start config spawn_fails m = start_process config spawn_fails m m.process

  abbrev pub clean_up : ProcessManager C → ProcessManager C
  clean_up m = record { process = none; stopping = false; log_open = false }

  abbrev pub stop_process : ProcessManager C → Option C → ProcessManager C
  stop_process m none = m
  stop_process m (some running) = clean_up m

  -- `stop`, up to its return: the child is reaped.
  unfoldable pub stop : ProcessManager C → ProcessManager C
  stop m = stop_process m m.process

  -- `_watch` after the exit of its process
  unfoldable pub watch : ProcessManager C → ProcessManager C
  watch m = if m.stopping then m else clean_up m

abbrev pub is_percent : ℕ → Bool
is_percent c = nat_beq c 37

-- What the next character writes; `pending` says that a `%` has been read before it.
abbrev pub write_after : Bool → ℕ → List ℕ → List ℕ
write_after true c rest = if is_percent c then rest else 37 ∷ c ∷ rest
write_after false c rest = if is_percent c then rest else c ∷ rest

-- `str.replace("%%", "")` of the interpolation of ConfigParser
abbrev pub without_pairs : Bool → List ℕ → List ℕ
without_pairs true [] = 37 ∷ []
without_pairs false [] = []
without_pairs pending (c ∷ cs) =
    write_after pending c (without_pairs (is_percent c && not pending) cs)

-- How far a `%(name)s` is read.
pub data Reference : Type 0 where
  outside percent opened named closed left_over : Reference

abbrev pub next_reference : Reference → ℕ → Reference
next_reference outside c = if is_percent c then percent else outside
next_reference percent c = if nat_beq c 40 then opened else left_over
next_reference opened c = if nat_beq c 41 then left_over else named
next_reference named c = if nat_beq c 41 then closed else named
next_reference closed c = if nat_beq c 115 then outside else left_over
next_reference left_over c = left_over

abbrev pub is_outside : Reference → Bool
is_outside outside = true
is_outside r = false

-- No `%` is left when each `%(name)s` is taken out.
abbrev pub has_references : Reference → List ℕ → Bool
has_references r [] = is_outside r
has_references r (c ∷ cs) = has_references (next_reference r c) cs

-- `parser.set` accepts the value; otherwise it raises a ValueError.
unfoldable pub is_settable : String → Bool
is_settable value = has_references outside (without_pairs false (codes value))
