-- ===== src/Sharedmem/Tests/Sessions.antt =====
-- The refinement of the directory at a run of three calls.
use message_transport.Common.{refl, List, [], ◌∷◌, arith}
use message_transport.Serialization.Scalars.{boolean}
use message_transport.Sharedmem.Descriptor.{name_of}
use message_transport.Sharedmem.Block.Operations.{reset_all_blocks}
use message_transport.Sharedmem.Session.Directory.{Change, stored, emptied}
use message_transport.Sharedmem.Session.Steps.{allocated, cleared, Run, here, next}
use message_transport.Sharedmem.Tests.Slots.{slots}
use message_transport.Sharedmem.Tests.States.{alone, seven, seven_handle, blank, blank_unused}
use message_transport.Sharedmem.Tests.Blocks.{filled, allocated_run}

abbrev calls : List Change
calls = emptied ∷ stored (name_of seven) 16 ∷ []

run : Run slots alone boolean blank calls (reset_all_blocks slots alone filled)
run =
    next (next here (allocated seven 16 seven_handle (omega arith) allocated_run blank_unused refl))
      (cleared refl refl)
