-- ===== src/Bus/Commands.antt =====
-- Commands and their visitors: src/components/bus/include/BusCommand.h, and `BusMessageHandler` of Bus.h.
-- The two commands are declared only, and `accept` is virtual: they are parameters.
use esp_ac_dimmer.Bus.{BusAddr}
use esp_ac_dimmer.Bus.Mailbox.{BusMsg}

-- `IBusCommandVisitor`, whose methods act on a state `W`.
pub record BusCommandVisitor (Cmd1 Cmd2 W : Type 0) : Type 0 where
  pub visit_cmd1 : BusAddr → BusAddr → Cmd1 → W → W
  pub visit_cmd2 : BusAddr → BusAddr → Cmd2 → W → W

module _ {Cmd1 Cmd2 W : Type 0} where
  -- The bodies that a visitor does not override are empty.
  abbrev pub empty_visitor : BusCommandVisitor Cmd1 Cmd2 W
  empty_visitor = record {
    visit_cmd1 = λ from to command w. w;
    visit_cmd2 = λ from to command w. w;
  }

  -- `BusMessageHandler::receive`, with the `accept` of the command `C`.
  abbrev pub receive_message :
      {C : Type 0}
      → (BusAddr → BusAddr → C → BusCommandVisitor Cmd1 Cmd2 W → W → W)
      → BusCommandVisitor Cmd1 Cmd2 W
      → BusMsg C
      → W
      → W
  receive_message accept visitor m w = accept m.from m.to m.msg visitor w
