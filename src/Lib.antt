-- ===== src/Lib.antt =====
-- lobaro-coap: a CoAP stack (RFC 7252) in C for embedded systems.
--
-- An incoming datagram is parsed into a message (src/coap_message.c), whose options, a linked list
-- ordered by number, are parsed and kept by src/coap_options.c; the files of src/option-types read
-- and write single options. A request becomes an interaction, and one list holds all interactions,
-- the longest waiting one first (src/coap_interaction.c). CoAP_doWork (src/coap_main.c) takes the first
-- one and makes a step of its state machine, which calls the handler of a resource
-- (src/coap_resource.c), sends a message, waits, or ends. A message that is sent is packed into a
-- datagram again, which the transmit function of a socket takes
-- (src/interface/network/net_Socket.c). All memory comes from the `malloc` of the application.
--
-- Which file models which part, and how its names follow the code:
--
--   Platform      CoAP_Result_t of src/liblobaro_coap.h; the allocator of src/coap_mem.c. A Platform
--                 says which calls of the application's `malloc` return a block, Mem counts the calls
--                 and the live blocks. A function that allocates takes both and returns the new Mem.
--   OptionList    the option list of src/coap_options.c: CoAP_AppendOptionToList and its parts,
--                 CoAP_RemoveOptionFromList, CoAP_FreeOptionList, CoAP_FindOptionByNumber,
--                 CoAP_CheckForUnknownCriticalOption, CoAP_OptionsAreEqual. A pointer to a list is a
--                 list, which the functions return changed; NULL for an option is `none`.
--   OptionWire    the wire format of options: pack_OptionsFromList, CoAP_NeededMem4PackOptions,
--                 parse_OptionsFromRaw. The bytes at a pointer are a function from offsets to bytes,
--                 so that reads past the end of the input are in the model.
--   Time          timeAfter of src/coap.h, on 32-bit seconds. Where its signed subtraction overflows,
--                 which C leaves undefined, the model takes the sign of the exact difference.
--   Message       CoAP_Message_t, CoAP_ParseMessageFromDatagram, CoAP_BuildDatagram and
--                 CoAP_GetRawSizeOfMessage of src/coap_message.c. Message.Create: CoAP_CreateMessage,
--                 CoAP_free_Message and the payload of a message.
--   Send          sockets, message ids, tokens, CoAP_SendMsg and its callers. A System holds what the
--                 application provides, a World the state; the log of the World holds every packet
--                 with the answer of the transmit function.
--   Observer      the observers of a resource (src/option-types/coap_option_observe.c,
--                 src/coap_resource.c).
--   Resource      CoAP_Res_t, its creation and its lookup by URI. Handlers and notifiers of the
--                 application are functions of the record.
--   UintOption    unsigned values of options and block parameters (src/coap_options.c).
--   Observe       the observe option (src/option-types/coap_option_observe.c).
--   Uri           src/option-types/coap_option_uri.c: URI strings to options, comparison of paths,
--                 values of query options. Whether the platform's plain char is signed is an
--                 argument where the code compares bytes with chars.
--   Blockwise     block options (src/option-types/coap_option_blockwise.c).
--   ContentFormat content format and accept options (src/option-types/coap_option_cf.c).
--   ETag          ETags of 64 bits (src/option-types/coap_option_ETag.c).
--   Endpoint      NetEp_t and EpAreEqual (src/interface/network/net_Endpoint.c).
--   Interaction   the list of interactions and how an interaction starts (src/coap_interaction.c).
--                 A node carries its address, which the code compares.
--   Machine       the state of the whole stack (Coap) and the steps of src/coap_main.c. Its children:
--                 Client, Server, Notify for the three state machines, Observation for
--                 CoAP_HandleObservationInReq, Start for the functions that start interactions,
--                 Incoming for CoAP_HandleIncomingPacket, Work for CoAP_doWork; Sound, Retransmission,
--                 Acknowledged, Dangling, Duplicates and Defined hold proofs. A pointer to an
--                 interaction or to an observer is the address of a node, one to a resource its place
--                 in the list; a handler returns `none` where the code follows a pointer that is NULL
--                 or leads to no node.
--   Common        shared names, Boolean tests, lists over the native numbers, shifted bit fields.
--   Examples      runs, and the theorems at concrete inputs.
--
-- Numbers are natural numbers, with the wrap-around of the C types written out: a uint16_t result is
-- a remainder by 65536, a mask is a remainder, a shift a product or a quotient. Where the C code
-- subtracts in int, the model writes the comparison without the subtraction.
--
-- Loops over lists are recursions on the list. Three loops run on fuel and return an Option:
-- parse_OptionsFromRaw on one round more than its input has bytes, CoAP_UriOptionsAreEqual and
-- RemoveAllBlockOptionsFromMsg on one round more than their lists have nodes. The result list says
-- where that is enough.
--
-- During one call of the stack the clock stands still, and handlers, notifiers and callbacks of the
-- application call no function of the stack that changes its state. A call of `malloc` whose result
-- the code does not test is taken to succeed.
--
-- Not modelled: CoAP_SetPayload and CoAP_SetPayload_CheckBlockOpt; the save format of observers and
-- the handler of .well-known/core (src/coap_resource.c); AddETagOptionToMsg, CoAP_FindUriQueryVal and
-- CoAP_atoi; the parsing of addresses, which calls sscanf. Initialisation only stores the application's
-- functions. Debug output and diagnostics only print.
pub mod Common
pub mod Platform
pub mod Time
pub mod OptionList
pub mod OptionWire
pub mod Message
pub mod UintOption
pub mod Observe
pub mod Uri
pub mod Blockwise
pub mod ContentFormat
pub mod ETag
pub mod Endpoint
pub mod Interaction
pub mod Send
pub mod Observer
pub mod Resource
pub mod Machine
pub mod Examples
