-- ===== src/Lib.antt =====
-- atomic-swap: trustless swaps of ether for monero. Alice provides ether, which she locks in a
-- contract; Bob provides monero, which he locks in an account whose keys are the sums of both
-- sides' keys. Claiming the ether reveals Bob's secret, with which Alice takes the monero; refunding
-- it reveals Alice's, with which Bob takes his monero back. The two nodes exchange messages over a
-- stream, and each works with an Ethereum node, a Monero wallet and a clock.
--
-- The parts, and the files of the repository that they model:
--   Base       numbers, lists, texts and dictionaries, and how a call ends (Outcome): with a value,
--              an error, a panic, or never
--   Types      common/types and common/network.go: statuses, coins, offers; float64 as an interface
--   Crypto     crypto/monero and crypto/secp256k1: keys over a given curve library, hex, base 58 and
--              addresses
--   Message    net/message/message.go: the messages and their wire form over a given JSON library
--   Errors     the error values of the packages, and what errors.Is and err.Error() tell of them
--   Action     a call that works on a state: Action S A; the rules for what a call keeps (Keeps),
--              that it ends (Returns), and what its success tells (Inversion)
--   World      what surrounds a node: calls outside are recorded in a history, and a platform
--              answers each as a function of the history; common/utils.go, swapfactory/utils.go and
--              monero/utils.go on top of it
--   Protocol   protocol/stage.go, protocol/common.go and dleq
--   Manager    protocol/swap/manager.go: the swaps of a process; an *Info is a place in a heap
--   Contract   ethereum/contracts/SwapFactory.sol and mulVerify of Secp256k1.sol; Steps runs any
--              sequence of calls; Spec is an abstract machine of swaps that forgets the storage
--   Alice      protocol/alice: starting a swap (Start), the swap state (Alice), the contract's calls
--              (Chain), claiming, Exit and doRefund (Settle), the message handlers (Handler), the
--              goroutines that wait for the timeouts (Watch) and recovery (Recovery); its proofs
--              stand in Calls, Seen, Guards, Refunds, Exits, Deadlock, Address and Started
--   Bob        protocol/bob: the offers (Offers), starting a swap (Start), the swap state (Bob), the
--              contract and the locking and claiming of funds (Chain), Exit and reclaiming (Settle),
--              the message handlers (Handler), the goroutine that claims after t0 (Watch) and
--              recovery (Recovery); its proofs stand in Calls, Claims, Checks, Guards, Exits, Leave,
--              Fields, Address, Refunded, Taken and Keyless. Peer is Bob as the network host calls
--              him, with the proofs in Stays, Ends, Begins, Locked and Streams; Locks is the order in
--              which his goroutines take the mutexes of a stream
--   Net        net: the length before a message, streams and queries (Net), the loop of a swap stream
--              (Loop), which gets the handlers of a side as a record, Handlers; its proofs stand in
--              Streams, Reads, Lengths, Framing, Overruns, Progress, ReadEnds, Ends, Serving and
--              Closed
--   Recover    recover/recovery.go: recovery from both secrets, or from one secret and the contract; its
--              proofs stand in Wallet
--   Rpc        rpc/swap.go: the requests on past and ongoing swaps;
--              NetService is rpc/net.go, the requests that find peers and make and take offers, with
--              the proofs in Keyless; Wire is common/rpctypes, and Websocket rpc/ws.go
--   WsClient   rpcclient/wsclient: the client of the websocket; its proofs, of client and server
--              together, stand in Wire, Served, Requests, Replies and Delivery
-- The other proofs stand in Contract/{Windows,Funds,Secrets,Phases,Refine,Guards,Enabled,Once},
-- Manager/{Invariant,History,Runs}, Message/Codec, Crypto/Base58/Chunks and Types/Status/Names. Parts
-- have a module Tests with runs on concrete values, some on a codec or a platform of a module Toy.
--
-- A handler is one function, with the code's early returns in the code's order; `x ← m` is a call
-- whose error is returned, `wrap` is fmt.Errorf with %w, `handle` an error that is looked at. Go's
-- HandleProtocolMessage is handle_protocol_message, lockETH is lock_eth, and so on. The mutex of a
-- swap state is a field, so that locking it twice blocks. Each handler holds the mutex throughout,
-- so handlers and goroutines interleave as whole steps. Bob/Locks alone has the steps between the
-- mutexes, and the mutex of the network host.
--
-- A status channel has room for seven statuses. Sending one to Bob's waits for ever while it is full;
-- how much of what was sent has been received is up to the platform, and theorems that say that a
-- call of Bob returns suppose that there is room. Sending to
-- Alice's channel does not block: its reader is supposed to keep up.
--
-- A read of a stream waits for ever where the peer is silent, and fails once the peer has closed the
-- stream or the connection broke. Theorems that say that a stream is left suppose that it is closed
-- or breaks in the end. SendSwapMessage, where it is called by the goroutine that claims after t0,
-- waits for the mutex of the host's stream.
--
-- Loops: the retries of WaitForReceipt and WaitForBlocks are the code's 360, the reads of a message
-- its 128, the bytes of a length its ten. Base 58 and math/big divide at each round, so the number
-- itself is enough fuel. The loop of a swap stream is followed for a number of rounds; more rounds
-- than there are bytes to come are enough. Two loops of Alice have no end of their own (setTimeouts
-- and waitUntilBalanceUnlocks); they are followed for Config.patience rounds and count as blocked
-- after that. TakeOfferSync is followed for a number of rounds, and a subscription for as long as its
-- channel gives something; after that both count as blocked.
--
-- A call of the contract's bindings records its arguments, but not the address for which the binding
-- was made. No ether is sent with SetReady, Claim and Refund, which the compiled contract reverts:
-- the value of these calls is not read.
--
-- Given, and not modelled: the curve and its hash, float64, encoding/json, the ABI decoder, the DLEq
-- library, both nodes, files, the peer and the clock. Theorems hold for every platform. Logging is
-- left out.
-- Not modelled either: the construction of the network host and its discovery of
-- peers, the JSON-RPC server and client over HTTP, the command lines, the wallet's HTTP client, the
-- generated bindings, farcaster-dleq, ui and the scripts.
pub mod Base
pub mod Types
pub mod Crypto
pub mod Message
pub mod Errors
pub mod Action
pub mod World
pub mod Protocol
pub mod Manager
pub mod Contract
pub mod Alice
pub mod Bob
pub mod Net
pub mod Recover
pub mod Rpc
pub mod WsClient
