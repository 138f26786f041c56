-- ===== src/Lib.antt =====
-- jmpxx: verification of the value-or-error transport, its error policies, its propagation, its
-- diagnostics, its bridges and its non-local unwind arm. Paths are from the repository's root.
--
-- The parts of the program, and the files that model them:
--   * Prelude and its children: lists, tests and signed integers over the native numbers.
--   * Core/Outcome: how code ends, by returning, by `platform::fail_fast`
--     (include/jmpxx/platform/trap.hpp), by throwing, or without a meaning.
--   * Core/Error: include/jmpxx/core/error.hpp.
--   * Core/Hardening: the hardening mode of include/jmpxx/core/config.hpp, as a function of the
--     build's macros.
--   * Core/Transport: class `result` of include/jmpxx/core/transport.hpp. The union is a `Slot` that
--     says which member is alive, beside the flag; a read of a member that is not alive has no
--     meaning. The overloads of a function for `&`, `const&` and `&&` are one definition.
--     Refines gives the view as a value or an error, and Laws the laws of the composition.
--   * Core/Lifetime: the special members of `result` on objects that are counted as they are built
--     and destroyed. What a contained type's copies, moves and assignments do, and whether they
--     throw, is a parameter.
--   * Core/Propagation: the macros of include/jmpxx/core/propagation.hpp and the hook of
--     include/jmpxx/core/diagnostic_hook.hpp, in functions that take and return the thread's state.
--   * Platform/Trace: include/jmpxx/platform/trace.hpp; the platform's `backtrace` is a parameter.
--   * Diagnostic/Store: the arena of include/jmpxx/diagnostic/store.hpp, of 16 records with 16 hops.
--     Its children show that it is a bounded stack of contexts.
--   * Diagnostic/Rich: include/jmpxx/diagnostics.hpp in a debug build. Issued, Landing, Hops, Propagate,
--     Print and Threads follow a failure from its creation to its landing.
--   * Unwind: include/jmpxx/unwind. A thread has a list of live carriers, whose addresses are their
--     places in that list. `eject` and `escape_scope` are those of unwind/escape.hpp; a `frame` is a
--     function with an automatic object whose destructor runs on every exit. Drive is the stop function
--     and the forced unwind of unwind/backend.hpp, with the platform's unwinder as a parameter.
--   * Erased: include/jmpxx/erased.hpp; a descriptor is its address, its virtual functions are
--     parameters.
--   * Interop/ErrorCode: include/jmpxx/interop/error_code.hpp; the address that the allocator returns
--     is a parameter. Interop/Boundary: adapt.hpp, expected.hpp and exception.hpp beside it.
--   * Reflect: include/jmpxx/reflect.hpp without static reflection, on GCC or Clang; what the compiler
--     spells is a parameter. A string is a list of character codes. Meta, Place and Ordered are the
--     same header with static reflection; the enumerators that it enumerates are a parameter.
--   * StoreCheck: reference_app/embedded/src/store_check.cpp, a client of the unwind arm; its
--     filesystem and `strtol` are parameters. Fields and Check are the checker, Flash is the driver of
--     the flash, Image the staging and the runs. Meaning says what a sound record is, apart from the
--     code. Fields and Check are the checker, Flash is the driver of
--     the flash, Image the staging and the runs. Meaning says what a sound record is, apart from the
--     code.
--   * Resolver: reference_app/src/resolve.hpp and config_resolve.cpp, another client of the arm. Meaning
--     describes what a table's values mean, apart from the code; Unique and Complete are about the keys
--     that have a value. The table is a parameter.
--   * Manifest: reference_app/optee_ta/ta/manifest_ta.cpp, a third client: Reader and Find read the
--     client's buffer with the wrapping sums of `size_t`, Verify is the descent, Session the entry
--     points. Every invocation enters on some thread, and the results suppose that the
--     environment has established the thread-local storage of each thread that enters, which
--     verify_client.c and the application's README report that it does not do for every one. Entries
--     describes the bytes of a manifest, apart from the code. The allocation of a hash operation and
--     SHA-256 are parameters.
--   * Client: reference_app/optee_ta/host/verify_client.c, which builds manifests and judges the answers.
--     Builder and Drive are the program; Judge is a program over the entries that reads no byte, and
--     Holds, Layout and Found are about the bytes of the entries. The TEE's client API is a parameter.
--   * Hooks: reference_app/optee_ta/ta/unwinder_hooks.c, which tells the unwinder of the trusted
--     application its object; the enumeration of the loaded objects is a parameter.
--   * SceneAudit: reference_app/godot_module/scene_audit.cpp, a client of the rich policy. Preorder says
--     what an audit is to find; a node of the engine is its name and its children.
--   * Report: verify/reporter.hpp, the JSON text of the verification harness; Quote has a reader of JSON
--     strings, apart from the code.
--   * Codegen: canon_labels of verify/main.cpp, with which the harness compares the assembly of two
--     functions; its fuel is the number of characters, of which every turn takes some.
--   * Lint: lint/jmpxx_lint.cpp. A match is a parameter: the nodes that Clang's matchers bind, with
--     their locations. Callback and Report follow the matches of the units of a run, which share the
--     callback's state, to the reports; Order is about the sort, Exchange about the order of the
--     matches.
--   * ConfigValidate: reference_app/src/config_validate.cpp and limits_check.hpp under the minimal
--     policy; the parsed document and the policy parser are parameters.
--
-- The parts meet so: propagation reads transports by the narrow accessors of the hardening mode and
-- calls the policy's hook, which for the rich policy writes to the diagnostic store of the thread;
-- the scene audit propagates rich errors under a landing of that store; the unwind arm delivers its
-- error as a transport, and the record checker, the resolver and the manifest verifier run under its
-- landing; the client sends the verifier what it builds. Unwind/Triple has the conditions before and
-- after a call below a landing with which the three are proved.
--
-- Bounds: integers are 32-bit where the code's are, the handle counter wraps at 2 ^ 32 and leaves out
-- 0. The loops are structural recursions, but for the descents of StoreCheck, Manifest and Resolver
-- and the loops of `interpolate` and `canon_labels`. A descent's fuel is one more than the names that
-- the reference path holds, or than the depths that are allowed and the first that is not: one on a
-- full path, or too deep, is refused before it goes on. A loop's fuel is one more than the characters
-- of the text, of which every turn takes some.
--
-- Not modelled: a thread without its thread-local storage; the platform's unwinder itself, of which
-- Drive relies on what the ABI says of the order of stop function and cleanups; what the compiler may
-- do with frames; the locking of the category table; the release build of the diagnostic layer, which
-- is empty; version and attribute macros; the linter's matchers; the benchmarks, the tests, the
-- probes of verify but for their reporter and the renaming of labels, and the generated
-- single_include headers.
pub mod Prelude
pub mod Core
pub mod Platform
pub mod Diagnostic
pub mod Unwind
pub mod Erased
pub mod Interop
pub mod Reflect
pub mod Client
pub mod Hooks
pub mod SceneAudit
pub mod Report
pub mod Codegen
pub mod StoreCheck
pub mod Resolver
pub mod Manifest
pub mod Lint
pub mod ConfigValidate
