-- ===== src/Lib.antt =====
-- Verification of the japlus_proxy library: the filters that proxy/proxy.c puts between a Jedi
-- Academy server and its game module, the flood guards that proxy/patch.c hooks into the server,
-- and how both get there: the loading of the game module and the planting of the hooks.
--
-- The parts. The engine calls vmMain, which looks at client commands, userinfo changes and begins,
-- and passes the call on to the real game or answers it. The game calls the engine through
-- Proxy_Syscall, which drops or cleans requests; vmMain uses the same function for what it prints
-- and for the clients that it drops. The detours of patch.c stand in front of the engine's handlers
-- of connectionless packets, of rcon and of donedl, and of the game's siege class lookup; the first
-- two share the leaky bucket and the tables of buckets.
-- Both entry points, vmMain and dllEntry, first call LoadReal, which looks for the real library and,
-- once, has InstallPatches plant the detours: each target is looked up and compared, its prefix is
-- measured, its first bytes are kept and overwritten with a jump, and the jump is read back.
--
-- The files. A parent module holds the code, its children the lemmas.
--   Prelude       bytes and lists; Prelude/Int is C's `int`, with 32 bits and their wrap-around
--   Engine        the engine as a parameter: its answers, the tokens of the current command, its
--                 settings, a client's userinfo; Proxy_CvarInt
--   Text          HasCRLF to IsPathChars, StrCasePrefix, StrCaseEq; Text/Number is atol,
--                 Text/Classes describes the classes of bytes without the tests of the code
--   Syscall       Proxy_Syscall: `proxy_syscall` gives the answer and the calls that reach the engine
--   Commands      ShouldBlockClientCommand, with JAPlusBlock in Commands/JaPlus, VanillaBlock in
--                 Commands/Vanilla and the joining of the arguments in Commands/Args; Commands/Sinks
--                 is about the commands whose argument is run
--   Info          Info_Value and Info_Set; Info/Pairs and Info/Laws relate them to lists of pairs,
--                 and Info/Parse any string to the pairs that are seen in it, with the format of
--                 strings in Info/Parse/Grammar; Info/Map is what the pairs stand for, a quotient
--                 that forgets their order, and the runs of Info_Set on it; Info/Names is CleanName,
--                 Info/Sanitize is SanitizeUserinfo, with what its values should be in its Policy
--   VmMain        vmMain behind the loader; the real vmMain, and whether it is loaded, are arguments;
--                 VmMain/Traffic is about all that reaches the engine in many calls
--   Loader        TryAdoptReal, TryAdoptRealNextToSelf, LoadReal, dllEntry, and vmMain with it;
--                 Loader/Directory and Loader/Choice describe the library to adopt, Loader/Session
--                 is about all calls of a server's life. g_engine, which dllEntry
--                 sets, is the argument `e` of the functions that use it
--   Throttle      patch.c: RateLimit is OOB_RateLimit, Buckets is BucketFor, Oob is Detour_Connless
--                 with its settings, Rcon is Detour_Rcon, Donedl is Detour_DoneDownload, Tally is
--                 the count of dropped packets that the three keep for their log. Buckets/View is
--                 what a table should be, a meter for every address; Buckets/Calm shows that a table
--                 behaves like it where few addresses send in any short time (Crowd), with
--                 Buckets/Shape, Distinct and Full on the bucket that is given away; Buckets/Evict
--                 is about any full table, Follow about the runs of a guard, Reach about all its
--                 states
--   Memory        the bytes that patch.c reads and writes, and its 32-bit pointer arithmetic
--   Hooks         Patch is MakeWritable and PatchBytes, Jumps is HookJumpN, HookJumpAbs and HookAuto,
--                 Inventory is TrackHook, RemoveHooks and HookArmed, Length is HookLenOk, Plant is
--                 PlantHook, Install is InstallPatches; mprotect, mmap, the decoder of hde32 and the
--                 dynamic linker are parameters
--   Targets       ResolveEngineAbs, over a memory
--   Siege         the table of targets in the game's module, ResolveTarget, Detour_SiegeFind
--   Tests         the theorems at concrete inputs
--
-- Conventions. A C string is the list of its bytes before the NUL, so a read at the end gives 0. A
-- static is a field of a record that is passed along. A call of the engine appears in the result,
-- in order; what the engine keeps of the userinfo that vmMain gives back is a parameter of
-- VmMain/Userinfo, since its buffers of 1024 bytes cut what is longer. The clock's readings are arguments. The `int` of a
-- bucket wraps at 32 bits; the bounds on runs of packets are about times below 2 ^ 31 ms that do not
-- go back. Addresses are numbers; the operands of jumps and the pages of mprotect wrap at 32 bits.
--
-- Fuel. The loops of Info_Value and Info_Set take the length of the string and one more; each round
-- leaves two bytes or more behind, and the theorems on strings show that it is enough. The loop of
-- HookLenOk takes one more than the length that it checks; each round goes on by a byte or more.
-- All other loops are structural.
--
-- Not modelled: the copy of the instruction length decoder (proxy/hde32.c, third-party code), of
-- which only the length and the error flag are used, as a parameter; the lines of the log; the build
-- files; and the server manager (japm/).
pub mod Prelude
pub mod Memory
pub mod Targets
pub mod Siege
pub mod Hooks
pub mod Throttle
pub mod Text
pub mod Engine
pub mod Syscall
pub mod Commands
pub mod Info
pub mod VmMain
pub mod Loader
pub mod Tests
