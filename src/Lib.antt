-- ===== src/Lib.antt =====
-- The RGB++ SDK: how it builds the Bitcoin transactions of the RGB++ protocol, in packages/btc, and
-- the virtual CKB transactions that these commit to, in packages/ckb; and how packages/rgbpp groups and
-- sums up assets.
--
-- A transaction is built by `TxBuilder` (packages/btc/src/transaction/build.ts). It holds inputs and
-- outputs; `payFee` repeats `injectChange` or `injectSatoshi` until the estimated fee is stable, and
-- these two call one another: satoshi that are collected leave a change, and a change that is too
-- small for an output of its own needs more satoshi. The UTXOs come from `DataSource`
-- (packages/btc/src/query), which asks the service. The calls in packages/btc/src/api compose this.
--
-- The modules:
--   Common             lists, tests and integers that the modules share.
--   Btc.Error          the error codes (packages/btc/src/error.ts) and results.
--   Btc.Types          the data, and `World`: what the source calls and does not implement.
--   Btc.Utils, Embed   packages/btc/src/utils.ts, preset/config.ts, transaction/embed.ts.
--   Btc.Utxos          packages/btc/src/transaction/utxo.ts.
--   Btc.Cache, Source  packages/btc/src/query/cache.ts and source.ts.
--   Btc.Builder        packages/btc/src/transaction/build.ts: Outputs (`addInput`, `addOutput`,
--                      `summary`), Deduct, Inject (`injectSatoshi`, `injectChange`), Fee (`payFee`),
--                      and the modules that prove things of these.
--   Btc.Api            packages/btc/src/api/sendUtxos.ts, sendBtc.ts, sendRbf.ts and
--                      sendRgbppUtxos.ts.
--   Ckb.Error, Types   packages/ckb/src/error and types.
--   Ckb.Constants      packages/ckb/src/constants/index.ts, by network: Testnet, Mainnet.
--   Ckb.Codec          packages/ckb/src/utils/hex.ts.
--   Ckb.Scripts        the locks and types of packages/ckb/src/utils/{rgbpp,ckb-tx,cell-dep}.ts;
--                      LockArgs and Sorting prove things of them.
--   Ckb.CellDeps       packages/ckb/src/utils/cell-dep.ts.
--   Ckb.Capacity       fees and capacities of packages/ckb/src/utils/{ckb-tx,rgbpp}.ts.
--   Ckb.TokenInfo      the information of a token in the same files.
--   Ckb.Collector      packages/ckb/src/collector/index.ts: `collectInputs`, `collectUdtInputs`, and in
--                      Pages `getCells`, whose fuel bounds the pages; one more than the cells is enough.
--   Ckb.Offline        packages/ckb/src/collector/offline.ts.
--   Ckb.Commitment     `calculateCommitment` of packages/ckb/src/utils/rgbpp.ts.
--   Ckb.Bound          what it is for outputs to be bound to Bitcoin outputs.
--   Ckb.Transfer, BatchTransfer, IssuerCell
--                      packages/ckb/src/rgbpp/btc-transfer.ts.
--   Ckb.JumpToBtc      packages/ckb/src/rgbpp/ckb-jump-btc.ts: the batch, and in Single the jump of one
--                      receiver.
--   Ckb.JumpToCkb      packages/ckb/src/rgbpp/btc-jump-ckb.ts.
--   Ckb.BtcTime, Launch, Builder, Paymaster
--                      packages/ckb/src/rgbpp/btc-time.ts, launch.ts, ckb-builder.ts and
--                      packages/ckb/src/paymaster/index.ts.
--   Ckb.Spore          packages/ckb/src/spore: Create makes clusters and spores, Move transfers them
--                      and leaps.
--   Rgbpp.Groups       packages/rgbpp/src/rgbpp/utils/group.ts.
--   Rgbpp.Summary      packages/rgbpp/src/rgbpp/summary/asset-summarizer.ts.
--   Btc.Tests, Btc.RgbppTests, Ckb.Samples, Ckb.Tests, Ckb.JumpTests, Rgbpp.Tests
--                      worlds, cells and numbers at which the theorems are applied.
--
-- State is passed explicitly: a method takes the builder, which holds the data source with its cache
-- and the number of queries made, and returns it. The service may answer each query in another way:
-- `World.utxos` takes the number of the query. An error that is thrown is a value `err` with its code;
-- the comments of errors are left out. Amounts are integers; a fee rate is a whole number of satoshi
-- for a virtual byte. Strings that are hex texts stay strings, and what the source decodes with Node's
-- Buffer or bitcoinjs-lib (scripts, addresses, embedded data, sizes of transactions) are functions of
-- `World`.
--
-- `inject_satoshi` takes a fuel that bounds the depth of the calls, and `pay_fee` one for its rounds.
-- The first is enough from the limit for an output on, since a change at least doubles in each call;
-- the second depends on the estimated size, for which the source itself has no bound on its rounds.
--
-- On the CKB side a hex text is the list of its bytes and a capacity is a number. `CkbWorld` holds what
-- is called and not implemented: molecule serialization, the digests, the size of a transaction, and
-- the tokens that the registry has fetched. The cells that the indexer gives and the JSON of cell deps
-- that is fetched are parameters of the calls; those of the Spores take the codecs of spore-sdk as
-- well. A transaction is built up to its signatures. Amounts of tokens are taken to be under 2 ^ 128,
-- and the ids of the indexer's cells and of UTXOs to have the form that their encoding asks.
--
-- Not modelled: signing and PSBTs, HTTP requests, and the calls of packages/rgbpp that compose the parts
-- above.
pub mod Common
pub mod Rgbpp
pub mod Btc
pub mod Ckb
