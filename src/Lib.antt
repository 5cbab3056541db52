-- ===== src/Lib.antt =====
-- ic-kit is a library for canisters of the Internet Computer. This is a model of its certified
-- data structures, of the simulated replica in which canisters are tested, and of its allocator
-- of stable memory, with what has been proved of them.
--
-- Certified.antt and its children model the crate ic-kit-certified:
-- - Certified/HashTree.antt is ic-kit-certified/src/hashtree.rs: `HashTree`, `reconstruct`, the
--   domain-separated digests and the enumerations. Certified/Serialize.antt is its `Serialize`,
--   as the sequence of the calls it makes. HashTree/Prunes.antt says when one tree is a pruning
--   of another.
-- - Certified/Label.antt has the traits `Label` (label.rs) and `AsHashTree` (as_hash_tree.rs),
--   and of their instances those for `u8` keys and byte string values.
-- - Certified/RbTree.antt and its children are rbtree.rs: the nodes with their rotations and
--   `balance` (RbTree/Node.antt), `get` and `insert` (RbTree/Insert.antt), `delete`
--   (RbTree/Delete.antt), `modify`, `for_each` and the functions on a prefix (RbTree/Query.antt),
--   the witnesses (RbTree/Witness.antt), and rbtree/iterator.rs (RbTree/Iterator.antt) and
--   rbtree/entry.rs (RbTree/Entry.antt). RbTree/Keeps.antt and RbTree/Balance.antt hold the
--   invariants that the operations keep.
-- - Certified/ByteKeys.antt has the instances of `Label` for byte strings and `bool`, and the
--   prefixes of byte strings (label.rs).
-- - Certified/Seq.antt, Certified/Map.antt and Certified/Paged.antt are collections/seq.rs,
--   map.rs and paged.rs, which are built on the tree: a map of sequences calls the tree's
--   `modify` and `insert`, a paged map its `modify_max_with_prefix`.
-- - Certified/Group.antt is collections/group.rs: the numbering of a group's nodes, its rays and
--   its witness. Group/Leaves.antt says what its leaves are, Group/Paths.antt what the numbering
--   is, and Group/Sound.antt and Group/Built.antt what is built of its rays.
-- - Certified/Group/Builder.antt is collections/group/builder.rs: the directories of leaves, and
--   the group that is made of them; a String is its bytes. Its loop over the children of a
--   directory has their number for fuel, since each round makes them fewer.
--   Group/Directories.antt has what is under a path, Group/Shown.antt what is under the labels of
--   a group, and Group/Filled.antt a builder in use.
-- - Certified/Assoc.antt is the abstract map, a list of entries whose keys rise, against which
--   the tree is proved.
-- Runtime.antt and its children model the crate ic-kit-runtime:
-- - Runtime/Types.antt and Runtime/EnvBuilder.antt are ic-kit-runtime/src/types.rs, with the
--   rejection codes of ic-kit-sys/src/types.rs; Runtime/Call.antt is call.rs;
--   Runtime/StableMemory.antt is the memory on the heap of stable.rs; Dict.antt has the hash
--   maps.
-- - Runtime/Canister.antt and its children are canister.rs: the fields of `Canister`
--   (Canister/State.antt), the system calls (Canister/Guard.antt, Replies.antt, Cycles.antt,
--   Calls.antt, System.antt), which of a message's parts is worked on (Canister/Take.antt), and
--   `process_message`, `perform` and `maybe_final_reply` (Canister/Message.antt).
--   Canister/Permissions.antt has the table of ic-kit-sys/src/ic0.rs. The other children hold
--   proofs: Frame.antt says what no system call changes, Conserve.antt and Refund.antt follow the
--   cycles, Answers.antt, Pending.antt, Live.antt, ReplyOnce.antt, Answered.antt and Resumed.antt
--   the replies, Delivered.antt what callbacks read, Owner.antt, Track.antt and Tracked.antt the
--   calls that are not answered yet, Silent.antt the tasks that make no reply, and Faults.antt
--   the places where the code does not do what it means to.
-- - Runtime/Replica.antt is `ReplicaState` of replica.rs: the routing of messages and the choice
--   of canister ids.
-- A canister's `process_message` gets its messages from the replica's `canister_request` and
-- `canister_reply`, runs a task that makes system calls, and returns the calls that the replica
-- then routes.
-- Stable.antt and its children model the allocator of the crate ic-kit-stable, in
-- ic-kit-stable/src/core:
-- - Stable/Checksum.antt is checksum.rs, and Stable/Hole.antt the search of `HoleIterator` in
--   hole.rs.
-- - Stable/HoleList.antt and its children are hole.rs: the boxes with their pointers,
--   `remove_hole` and the insertion of `raw_insert` (HoleList.antt), the index of a size
--   (HoleList/Index.antt), the neighbours and the way through the lists (HoleList/Search.antt),
--   and `insert` and `find` with the headers that they write (HoleList/Blocks.antt).
--   HoleList/Invariant.antt says when the lists are well formed; the other children hold the
--   proofs, operation by operation.
-- - Stable/Memory.antt is the trait of memory.rs with what the allocator relies on, and
--   Memory/Heap.antt shows that the heap memory of the runtime has it. Stable/Allocator.antt is
--   allocator.rs, and Allocator/Runs.antt the allocator in use.
-- Base.antt has the shared notation and lemmas; Tests.antt has runs of the models, and the
-- theorems at concrete inputs.
--
-- In a group, a number stands for a type's `TypeId`, and a parameter `V` for `dyn GroupLeaf`,
-- with what it implements of `AsHashTree`.
--
-- A node is owned by the one pointer to it, so a subtree is a value; the null pointer is `null`.
-- Code that dereferences a pointer, indexes a slice or panics returns an `Option`, where `none`
-- is the fault. Debug assertions are taken to be checked, but for those of `cfg(test)`. The
-- lengths are not bounded by the width of `usize`, which memory ends before. The recursion of
-- `delete` is on fuel, the number of the tree's nodes: a rotation on the way may move a node
-- down, but each call goes to a proper part of what is left. Its correctness is not proved yet. A
-- page's number is a `u32` that wraps.
--
-- In the runtime, what a canister's own code does is a `Task`, a tree of system calls and what
-- follows each result; a task that does not end is not one. The function that a callback's number
-- stands for is the parameter `Code`, and what the crate ic_types, the decoding of UTF-8 and the
-- clock give is the parameter `Host`. Strings and principals are their bytes. A source in the
-- canister's memory is the bytes that stand there. A copy to it is the value that the call
-- returns. `none`, and `panicked` in a system call, is a panic of the runtime. Sums of 128 and 64
-- bits wrap, as they do without overflow checks. In a canister the receiver of a reply is taken
-- to be alive, as replica.rs keeps it; the replica has, for each channel, whether its receiver is
-- there, and panics where it is not. The search for a free canister id has fuel for one round
-- more than there are canisters, since each round before the last meets another of them.
--
-- In the allocator, the pointer to a box of a hole is the address of the hole, by which the map
-- finds the box; `none` is a panic or the use of a pointer to a box that is gone. Of the memory
-- it is asked that a write within its pages does not trap, is read back and changes nothing else,
-- that growing adds pages or changes nothing, and that it has at most 2 ^ 39 bytes, as much as
-- the lists of holes can index. The way through a list has fuel for one step more than there are
-- holes, which is proved to be enough. Sums of 64 bits wrap. The loading of the lists from
-- memory, for which `skip_write` is meant, is not written in the source.
--
-- SHA-256 (the crate sha2) is the parameter `Sha256`, about which nothing is assumed; the
-- standard library's `Ord` and the trait `Prefix` come with the laws that their documentation
-- asks of them.
--
-- Not modelled: the block cache of stable memory, the asynchronous workers of the replica and its
-- handles, the canister library's storage; the encodings of the crate candid; and the macros and
-- the bindings of the system interface, which hold no logic of their own.
pub mod Base
pub mod Tests
pub mod Dict
pub mod Certified
pub mod Runtime
pub mod Stable
