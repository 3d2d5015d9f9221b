-- ===== src/Bus/Tasks/Examples.antt =====
-- Two tasks on one bus: the second connects and names a group between the two regions of the first's `join`.
use esp_ac_dimmer.Prelude.{ℕ, ◌+◌, ◌≡◌, refl, arith, true, some}
use esp_ac_dimmer.Prelude.Int.{pos, is_neg}
use mathlib.Core.List.{Mem}
use esp_ac_dimmer.Bus.{
  Bus, invalid, new_bus, find_if, connect, name_addr, join_addr, destination, resolve_name,
}
use esp_ac_dimmer.Bus.Valid.{IsValid}
use esp_ac_dimmer.Bus.Tasks.{
  idle, joining, System, update, connects, begins_join, IsStart, Reach, start, later,
}
use esp_ac_dimmer.Bus.Tasks.Reached.{Reach-IsValid, Reach-join, Step-resolve_name}

abbrev two_tasks : System
two_tasks = record {
  bus = new_bus;
  client = λ i. record { addr = invalid; queue = some (10 + i) };
  pc = λ i. idle;
}

-- After `connect` of a task.
abbrev connecting : ℕ → System → System
connecting i s = record s {
  bus = (connect s.bus (s.client i)).2;
  client = update s.client i (connect s.bus (s.client i)).1;
}

-- After the first region of `join` of a task.
abbrev naming : ℕ → System → System
naming i s = record s {
  bus = (name_addr s.bus "net").1;
  pc = update s.pc i (joining "net" (name_addr s.bus "net").0);
}

abbrev between : System
between = naming 1 (connecting 1 (naming 0 (connecting 0 two_tasks)))

two_tasks-IsStart : IsStart two_tasks
two_tasks-IsStart = record { new = refl; apart = λ i. refl; outside = λ i. refl }

between-Reach : Reach 4 between
between-Reach =
    later
      (later (later (later (start two_tasks-IsStart) (connects 0 refl)) (begins_join 0 "net" refl))
        (connects 1 refl))
      (begins_join 1 "net" refl)

between-client : is_neg (between.client 0).addr ≡ true
unfolding connect find_if
between-client = refl

between-pc : between.pc 0 ≡ joining "net" (pos 1)
unfolding connect find_if name_addr
between-pc = refl

between-known : resolve_name between.bus (some "net") ≡ pos 1
unfolding connect find_if name_addr resolve_name
between-known = refl

Reach-IsValid_example : IsValid between.bus
Reach-IsValid_example = Reach-IsValid (omega arith) between-Reach

Reach-join_example :
    (bus : Bus) × (join_addr between.bus (pos 1) (between.client 0) ≡ some (true, bus))
    × (resolve_name bus (some "net") ≡ pos 1)
    × Mem (between.client 0).addr (destination bus (pos 1))
Reach-join_example =
    Reach-join 0 "net" (pos 1) (omega arith) between-Reach between-pc between-client

Step-resolve_name_example :
    resolve_name (connecting 2 between).bus (some "net") ≡ resolve_name between.bus (some "net")
Step-resolve_name_example =
    Step-resolve_name "net" (omega arith) between-Reach (connects 2 refl)
      (λ no. ground (arith, no, between-known))
