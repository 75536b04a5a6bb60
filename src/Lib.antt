-- ===== src/Lib.antt =====
-- A verification library for the distributed key-value store: its byte format, its containers,
-- its messages, the store of one node, the thread that answers the other nodes, the dataframes whose
-- columns keep their data in the store in blocks, and the reader of SoR files.
--
-- How the program works. A node (src/application/thread/nodethread.h) runs an application and a
-- ReceiverThread. Both use one KVStore, which holds the values of the keys whose home is this node,
-- asks other nodes for the values of their keys, and keeps in msgCache_ the requests it cannot
-- answer yet and the replies that have come in. Keys, values and messages travel as bytes that a
-- Serializer lays out; a Network carries them over sockets, a PseudoNetwork over queues. A DataFrame
-- has a Schema and a ColumnArray. A Column cuts its values into blocks, block n under a key of node
-- n modulo the number of nodes, and reads a value through its cache, the store or the network; map
-- and local_map fill a Row for each row, or for each row of this node's blocks. DataToDf makes
-- frames from arrays, from writers and from SoR files, whose fields SorWriter puts into rows.
--
-- Which file models what:
--   Prelude         lists and tests on native numbers; Run, the outcome of a call: a result, or a
--                   Fault (exit, a failed assert, undefined behaviour, or no return at all)
--   Prelude/Places  the element of a list at a place
--   Serial          src/serial/serial.h, src/network/msgkind.h: Serializer, add_ (add), the write
--                   overloads (write_size, write_int, ...) and readers (read_size, ...). Room, Write
--                   and Read are about its loop, its writes and its reads; Wire is the contract of a
--                   serialize and deserialize pair, put together in Wire/Scalars, Text and Many
--   Utils/Str, Utils/StrBuff, Utils/Decimal
--                   src/utils/string.h: String, StrBuff, and std::to_string
--   Utils/DataType  src/utils/datatype.h and datatypeutils.h
--   Utils/Args      src/utils/args.h: Arguments, whose values are arguments of the definitions that
--                   use them (num_nodes, block_size). Settings: a command line as a list of options
--   Utils/Array     src/utils/array.h: Array. Represents: the list that it holds
--   Utils/Queue     src/utils/queue.h: Node and Queue on an explicit heap. IsQueue: its sequence
--   Utils/Map       src/utils/map.h: Map, on keys of the interface Utils/Hashed. view: the finite
--                   map that it holds; IsValid: its invariant
--   Utils/StrMap    src/utils/map.h: MapStrObj, SIMap
--   Store/Key, Store/KeyBuff, Store/Value, Store/KvStore
--                   src/store/key.h, keybuff.h, value.h, kvstore.h. KvStore is the state of a store with the
--                   messages it has sent; get_value, put, add_msg_waiting_on, add_reply are its
--                   operations. A call that blocks is cut at its wait: get_value gives `waiting`, and
--                   resume is what the thread does when it wakes up. IsSound is the invariant
--   Network/SizeTWrapper, NodeInfo, Directory, Message
--                   the files of src/network of those names
--   Network/Net     sendMsg and receiveMsg of src/network/network.h
--   Network/Members INetwork (src/network/inetwork.h), and what Network and PseudoNetwork do with
--                   registrations, directories and done messages
--   Network/Pseudo  src/network/pseudo: MessageQueue, MsgQueueArr, sendMsg and receiveMsg
--   Application/Receiver
--                   src/application/thread/receiverthread.h: the switch of run (handle) and its loop
--                   (run) over the messages that arrive
--   Dataframe/Block src/dataframe/block: the four block classes, which differ in Block/Kinds only.
--                   Holds: the list that a block holds
--   Dataframe/Cache src/dataframe/column/cache.h: Cache. IsCache: its keys, the oldest first
--   Dataframe/KeyArr, Dataframe/Distributed
--                   src/dataframe/column/keyarr.h and distributedarray.h, and addBlockToStore_ of
--                   column.h: blocks that are stored, fetched and cached
--   Dataframe/Schema
--                   src/dataframe/schema.h. Describes: the types of its columns
--   Dataframe/Item  a value of one of the four types, for the overloads of the operations below
--   Dataframe/Column, Dataframe/ColumnArray
--                   src/dataframe/column/column.h and columnarray.h. IsColumn: the items that a
--                   column holds, as far as their blocks are of this node; Mailed: the puts sent
--                   for the blocks of other nodes
--   Dataframe/Row   src/dataframe/row/rowelement.h and row.h
--   Dataframe/DataFrame, Dataframe/Visit, Dataframe/DataToDf
--                   src/dataframe/dataframe.h, its map, local_map and visit, and datatodf.h
--   Sorer/FieldArray, Sorer/Fields, Sorer/Parse, Sorer/Columnar, Sorer/Writer
--                   src/sorer/field_array.h; of sorer_helper.h the fields, the rows and
--                   schemas, and make_columnar; sorwriter.h
--   the modules Wire of a part
--                   its serialize and deserialize
--   Samples, and the modules Tests and WireTests
--                   concrete data, and the theorems applied to it
--
-- Conventions. Types have their sizes on a little-endian machine with 64-bit size_t and long; a
-- double is its bit pattern. Sums of sizes stay below 2^64 and allocations succeed. An object that
-- the program clones or hands over is a value here, except in Utils/Queue and where a theorem is
-- about a shared object; deletes are modelled in Utils/Queue only. The lock msgCacheLock_ is a flag
-- of the store: a step takes it and gives it back where the code does, and a call that finds it held
-- gives `diverges`. Interleavings of the threads are sequences of such steps.
--
-- Fuel. add_ has one round more than the bytes needed, and the capacity grows in each; deleting the
-- nodes of a queue and comparing two queues have one round for each node, as many as the length.
-- The theorems prove that these are enough. add_all has one round more than the items, and each
-- round but the last takes some. The loops over a row of a SoR file have one round more than the
-- memory has bytes, and each moves forward. A number is printed with 20 digits at most, which a
-- size_t needs. visit and make_columnar may run for ever, and take their number of rounds as an
-- argument. All other loops recurse on what they count.
--
-- Not modelled: the sockets, the threads' start and join, printing, class Sorer, which maps a file
-- into memory (the memory is an argument), and the applications with their readers and writers
-- (src/filereader too). What strtold reads is a parameter of the SoR definitions, `strtold_count`
-- for how many characters and `strtold` for the value. What `add` of a block returns for an item
-- that fits is not set by the code and not modelled, nor is what Node::setNext returns. A null cell
-- of a StringBlock is copied by clone here, where the code would call clone on the null pointer; no
-- caller stores a null. Map::equals is of two objects, and does not release its arrays here.
pub mod Prelude
pub mod Serial
pub mod Utils
pub mod Store
pub mod Network
pub mod Application
pub mod Dataframe
pub mod Samples
pub mod Sorer
