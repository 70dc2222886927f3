-- ===== src/Lib.antt =====
-- The payment back end of StarkPay, a NestJS program (src/): wallets in naira, NFC cards that pay
-- from a wallet or from a balance of their own, stations and merchants that collect, and a
-- ledger.
--
-- Prelude, Prelude/Int: shared names, the integers over the native numbers. Schema: the tables of
-- prisma/schema.prisma. External: what the services call and do not implement (the database
-- behind Prisma, argon2, the clock, the processor) as a record `Env`, with the laws `IsLawful`
-- that theorems assume of the database, and External/Memory, a database in memory that satisfies
-- them. Exec: a method is a function of the state to its result, a value or what it throws, and
-- the new state; World: the state the services share, the tables and the emitted events, with the
-- writes of Prisma (P2002, P2003 and P2025 as errors); World/Balances: what the writes do to
-- balances. Response: CustomResponse of src/common/types/response.type.ts.
--
-- Reference, Regex, Identifier: src/common/helpers/transaction-reference.helper.ts,
-- general.helpers.ts and to-valid-phone.ts; UserLookup: `getUserByUniqueIdentifier` of
-- src/user/user.service.ts. Payment: `collectPayment` of src/payment/payment.service.ts, as the
-- steps collector, approve (find_card, authorise, available balance), settle (move_money,
-- record_payment), with the children Guards (what approve checks), Moves (what move_money
-- writes), Collect (the whole), Effects (what a success has changed), Merchants and Stations (the
-- two kinds of collectors), and Inactive (cards that are not active). Transfer: `sendPayment` of
-- the same file, as pay, transfer, exchange, with Moves and Laws. Withdrawal: `withdrawToBank`
-- and `userWithdraw` of src/wallet/wallet.service.ts and
-- src/wallet/helpers/bank-transfer.helper.ts, with Needs (what a withdrawal asks for), Posting
-- (its debit and row), Laws, and Business (`businessWithdraw`, with `getWithdrawalBalance` of
-- src/business/business.service.ts: Posting, what a payout has done, Laws, and Refund, with the
-- report of a failed transfer). WebhookPayload, Webhook: src/webhooks/webhooks.service.ts,
-- src/wallet/helpers/collection-account.helper.ts (the verification of a charge) and the
-- listeners of src/webhooks/events/bank-transfer.event.ts, with Transfers (outcomes of
-- transfers), Charges (one delivery) and Credits (several). A webhook appends events to the
-- state, and `listen` runs the listener of one, so deliveries and listeners can be put in any
-- order. Funding: `fundWalletWithBankTransfer` and `agentFundWalletWithBankTransfer` of
-- src/wallet/wallet.service.ts, with Laws (its limits, and the charge that completes it). Card:
-- src/card/card.service.ts and src/card/helpers/send-email.helper.ts, with Laws. Otp:
-- src/common/helpers/otp.helper.ts, with Text (its parts), RoundTrip (a pending password) and
-- Fresh (the loop). SignIn: the roles, the limit of attempts and the tokens of
-- src/auth/auth.service.ts, with Pin (`pinSignIn`: Limit, Laws, Session), Password
-- (`adminSignIn`, `passwordSignIn`, `enableTwoFactorAuth`, and in TwoFactor the completions),
-- Tokens and Stations. Reset: the one-time passwords of the same service, with Laws. Stations:
-- the stations of src/business/business.service.ts, with Laws. Profile: the changes of a user's
-- own data, src/user/user.service.ts, with Laws. Card/Agents: what agents do with cards.
-- Registration: `signUp` and `registerUser` of src/auth/auth.service.ts and `createWallet`, with
-- Username (`generateUsername`), Referral (src/auth/events/referral-code-validated.event.ts) and
-- their Laws. Business: the registration, update and verification of businesses,
-- src/business/business.service.ts, with Laws and Emails. Ledger: the queries of
-- src/transaction/transaction.service.ts and `getTransactions` of
-- src/business/business.service.ts, with Pages (filters and pages of lists), Laws (what is
-- listed) and Exposure (what is listed to others). Otp/Stored: what a new password leaves.
-- Profile/Update and Profile/Deletion: updates of a user, and the deletion with its cascades.
-- Unique: the unique columns of users as an invariant, with Steps (the requests that write users
-- as a step relation), and a module Unique in each component for what its requests keep.
-- BankAccounts: the bank accounts of users and businesses, src/user/user.service.ts and
-- src/business/business.service.ts, with Laws and Withdrawals (a withdrawal after an addition).
-- External/Rows: the only row that meets a test; Accounts: an abstract view of the wallets,
-- entries that change balances, and the requests to the payment and wallet services as a step
-- relation, with Refinement; Payment/Entries: a collection as one entry. World/References: the
-- row that a reference names. Samples is the database that the witnesses, in the Tests modules,
-- run on.
--
-- Modelling: a request runs to its end with no other request in between, and a method's writes
-- before a throw stay unless they are in a `$transaction`. Amounts are whole thousandths of a
-- naira where the program has doubles, and identifiers are numbers where it has strings. A day is
-- a day of Africa/Lagos. A query that orders rows by the time of their creation sees rows of one
-- time in an order that may differ from query to query. Of several keys that restrict a deletion
-- the first that the migrations add is reported. Failures of the connection to the database are
-- not modelled. `wallets[0]` of a user or business is the first wallet found for it. The clock
-- stands still within an `Env`, and stored hashes are ones that argon2 accepts; the secrets of
-- the tokens are configured. The loop that draws one-time passwords is recursion on fuel,
-- `tries`, and its theorem says that any fuel beyond the first free code gives the same text; the
-- digits of a number are printed on fuel, which is more than there are digits; all other
-- recursion is structural. Dates are printed in a time zone that is not west of Greenwich, so
-- that their text has no hyphen.
--
-- Not modelled: the controllers, the other services (request guards, the funding of wallets by
-- card, the cards' creation and queries, administration, the full-text search), and the delivery
-- of messages by SMS, email and push.
pub mod Accounts
pub mod BankAccounts
pub mod Business
pub mod Card
pub mod Exec
pub mod External
pub mod Funding
pub mod Identifier
pub mod Ledger
pub mod Otp
pub mod Payment
pub mod Prelude
pub mod Profile
pub mod Reference
pub mod Regex
pub mod Registration
pub mod Reset
pub mod Response
pub mod Samples
pub mod Schema
pub mod SignIn
pub mod Stations
pub mod Transfer
pub mod Unique
pub mod UserLookup
pub mod Webhook
pub mod WebhookPayload
pub mod Withdrawal
pub mod World
