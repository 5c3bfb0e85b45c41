-- ===== src/Lib.antt =====
-- A verification library for the auction platform backend: its auctions, from a bid to the winner
-- and the payment, the rooms of live auctions, and its users: sign-in, documents, reports of fraud,
-- wallets and subscriptions.
--
-- The program. A REST and socket server in layers: `domain` holds entities and policies,
-- `application` the use cases and strategies, `infrastructure` the repositories, queues and
-- gateways. A use case reads rows through a repository, tests them, builds new entities and saves
-- them; every step gives a `Result` and the use case returns at the first failure.
--
-- Prelude                 names of the libraries passed on, Boolean tests, lists, integers.
-- Outcome, Outcome/Post   `domain/shared/result.ts` and asynchronous methods over a world `W`: a
--                         call is done, failed or thrown, and always gives a world. `attempt` keeps
--                         a failure as a value, `or_catch` and `finally` are `try`; `Post` is a
--                         postcondition of such a call with the rules to prove one; World is about the
--                         world after a call however it ends, Verdict about what the call answers.
-- Auction                 `domain/entities/auction`: the auction and `Auction.create`, `setStatus`
--                         and `setWinner`; Category, and Bid with the records around an auction.
-- Services                the interfaces of `domain/repositories` and
--                         `application/interfaces/services` as records of operations, bundled as a
--                         `Platform`.
-- Bidding                 `domain/policies/auction` (canPlaceBid, shouldExtendAuction) and the
--                         strategies that create a bid; Policy and Strategy state what they admit.
-- BidStore                the laws of the stored bids that the bidding code relies on.
-- AutoBid                 `infrastructure/services/auction/autoBid.service.ts`; Store and Answers are
--                         about the stored bids, Within and Chain about the bids that it places, Ends about
--                         the end of an auction that late bids prolong.
-- AutoBidConfigs          the use cases of `application/usecases/auction` that create, update and
--                         disable a configuration of automatic bids.
-- PlaceBid                `application/usecases/auction/placeBid.usecase.ts`.
-- BidLock                 `infrastructure/services/lock/bid.lock.service.ts`, any sequence of its calls.
-- Winner                  `application/strategies/auction`: the winner of an open and of a sealed
--                         auction, and the next winner after one who has not paid.
-- Ending                  the use cases of `application/usecases/auction` that publish, pause,
--                         resume, end, fail and expire auctions; Status, Moves, Closing and Overdue
--                         follow the stored status through them.
-- Categories              the use cases of `application/usecases/admin` and `seller` around categories;
--                         Standing is what stays of a category, Steps are the calls, Calls any
--                         sequence of them.
-- Creation                `application/usecases/auction/createAuction.usecase.ts` and the policies of
--                         `domain/policies/auction` that it asks; Drafts is about an auction drafted,
--                         Stored about the table of auctions; Updates is `updateAuction.usecase.ts`,
--                         Revisions about the table around it.
-- Subscription            `domain/entities/subscription` with the tables of plans and subscriptions.
-- Plans                   `infrastructure/services/subscription/subscription-config.service.ts`; Limits
--                         is about bids and auctions.
-- Subscriptions           `application/usecases/subscription/checkoutUserSubscription.usecase.ts`,
--                         `infrastructure/services/subscription/subscription.service.ts` and
--                         `application/usecases/webhook`; Events is the webhook, Refund is about the refund, Calls about any
--                         sequence of these, with Status, Webhooks and Checkouts for its steps.
-- Account, Wallets        `domain/entities/wallet`, and the use cases that credit, debit and open a
--                         wallet, hold the deposit of a participant and release it; Ledger, Amounts
--                         and Joining relate balances and entries, Total follows the sum of the balances.
-- Payment, Payments       `domain/entities/payments`, and the strategies and use cases that create
--                         the payments of a winner and verify them; Split is about the amounts,
--                         Verified about the gateway.
-- Fraud, Declines         `domain/entities/fraud/fraud-report.entity.ts`, and
--                         `application/usecases/payments/declinePayment.usecase.ts`.
-- Notice, Fallback        notifications, and the use cases of `application/usecases/auction` that
--                         announce the end, choose the next winner and offer the auction publicly;
--                         Status and Offer follow the stored status, Calm is about the calls that leave
--                         it alone.
-- PublicPayments          an auction that is offered publicly: its orders, its payment (both in
--                         `application/usecases/payments`) and its decline; Sale and Once are about
--                         the payment, Orders about who is asked for how much.
-- Users, Kyc              `domain/entities/user`, and the documents of sellers: `domain/entities/kyc`
--                         with its use cases in `application/usecases/kyc` and `admin`; Cycle is the
--                         cycle of a record, Reviews and Updates its steps, Calls any sequence of
--                         them.
-- FraudReview             `application/usecases/fraud` and `admin/blockUser.usecase.ts`; Record is what
--                         is followed of a user, Decision and Steps are about a review, Others about
--                         the other calls, Calls about any sequence of them.
-- Double                  the floor of a price times a quotient, in the arithmetic of JavaScript; Shares
--                         is about how far it is from the exact one.
-- Life                    any sequence of the use cases of Ending and Fallback.
-- Otp                     `domain/entities/otp`, `domain/policies/otp`, and the check of a one-time
--                         password in `application/usecases/auth/verifyCredentials.usecase.ts`.
-- SignIn                  `application/usecases/auth` without `getUser.usecase.ts`, in Entry what gives a
--                         session, in Accounts what sets up an account or a password; Admission,
--                         Passwords, Codes, Google and Sessions are about who gets in, Resets,
--                         Answers and Recovery about new passwords; Profile is of
--                         `application/usecases/user` and `otp` what edits a profile and sends codes,
--                         Changes and Edits are about the account.
-- Live                    `socket/managers/liveAuctionRoom.manager.ts`, and in Handlers the handlers of
--                         `socket/handler/auction.handler.ts` for live auctions; Leaving is about a user
--                         who leaves, Hosts, Visits and Calls about who may speak.
-- Tests                   runs and the theorems at concrete inputs, over a platform in memory.
--
-- Conventions. Identifiers are only compared, so they are natural numbers, and no identifier is the
-- empty string that the source would take for a missing one. Times are milliseconds; a stretch of
-- code without `await` reads the clock once. Prices are whole units of the currency, ratios and
-- balances ten-thousandths; the rounding of
-- floating-point numbers is modelled in Double, for the refund of a plan, and nowhere else. A cipher text is a number
-- that only the encryption service reads; a decrypted text that is not a finite number is `none`.
-- Messages of failures are constructors of `Error`, the texts of notifications those of
-- `NoticeText`. Logging is left out.
--
-- Repositories, the lock, the clock and the event bus are parameters. Where a theorem needs them to
-- behave, it takes laws as hypotheses (`BidLaws`, `StatusLaws`, `CalmLaws`,
-- `WalletLaws`, `PurseLaws`, `PaymentLaws`, `GatewayLaws`, `RedisLaws`, `ConfigLaws`,
-- `DeclineLaws`, `DraftLaws`, `LimitLaws`, `SubscriptionLaws`, `SaleLaws`, `OrderLaws`, `CycleLaws`, `FraudLaws`,
-- `SessionLaws`, `ResetLaws`, `LiveLaws`, `RevisionLaws`, `TableLaws`, `SavedLaws`, `Answers`, `ProfileLaws`): a read changes nothing that the
-- theorem looks at, a save changes the row of its identifier; where the code does not look at the
-- result of a save, the law leaves open whether it is stored. The tests give a memory that satisfies
-- them. Loops are structural recursion over the rows read, so no fuel is needed; a quotient is
-- rounded with 105 doublings, enough for operands below 2 ^ 53.
--
-- Not modelled: controllers, routes, the other socket handlers, validation schemas, dependency
-- injection, mappers, Prisma and Redis themselves, mail, storage and the AI agents, which are input
-- and output; the administration of plans, avatars, chat, and the pages
-- that are only read.
pub mod Prelude
pub mod Outcome
pub mod Auction
pub mod Account
pub mod Payment
pub mod Notice
pub mod Fraud
pub mod Services
pub mod SignIn
pub mod Bidding
pub mod BidStore
pub mod AutoBid
pub mod AutoBidConfigs
pub mod PlaceBid
pub mod BidLock
pub mod Winner
pub mod Ending
pub mod Categories
pub mod Creation
pub mod Wallets
pub mod Payments
pub mod Subscription
pub mod Plans
pub mod Subscriptions
pub mod Declines
pub mod Double
pub mod Fallback
pub mod PublicPayments
pub mod Life
pub mod Live
pub mod Users
pub mod FraudReview
pub mod Kyc
pub mod Otp
pub mod Tests
