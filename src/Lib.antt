-- ===== src/Lib.antt =====
-- Verification of the commerce core of teggo: money, prices, promotions, rebates, tax, shipping, product
-- configuration, merchandising, the marketplace split, the stock, the workflow engine, the status of
-- orders, subscriptions, invoices and their payments, returns, the ageing of receivables, plans and
-- usage quotas, the rate limiter, tenant checks and the exchange of order documents.
--
-- Prelude holds the names that the modules share: tests on native numbers, lists, options, signed
-- integers over the native numbers, and texts as lists of bytes.
--
-- Money models internal/money/money.go. Decimal is `Rat.SetString` and `Rat.FloatString(4)` of
-- math/big (`parse` is Parse, `format` is Format), Rat the arithmetic of `big.Rat`, Amount the
-- operations LineTotal, Sub, Cmp, RowTotal, Percent and Sum. Every other module does its money
-- through these.
--
-- Promotions models internal/promotions/engine.go (Evaluate and what it calls), PriceRules models
-- internal/pricing/rules.go (Matches and Apply), Rebates models internal/rebates/engine.go
-- (PeriodWindow, Applicable and Rebate).
--
-- Marketplace models SplitOrder of internal/modules/marketplace/split.go: the state is the rows of
-- vendor_orders and the vendor tags of order items, and GetVendor is a parameter.
--
-- Inventory models internal/inventory/service.go (ReserveForOrder, FulfilShipment) and the handler
-- adjust of internal/inventory/handler.go over the rows of inventory_levels and
-- inventory_movements, with the queries of internal/store/queries/inventory.sql that they call.
--
-- Workflow models ApplyTransitionTo of internal/workflow/engine.go over the rows of the workflow
-- tables, with the queries of internal/store/queries that it calls. Registered guards and actions and
-- the caller's hook are parameters; order handlers pass a hook that reserves stock. Workflow/Guards has
-- HasPermission of guards.go and EnsureInstance of engine.go.
--
-- Sales models patchOrderStatus of internal/modules/sales/order.go, which puts together Workflow and
-- Inventory: the instance of an order is found or made, and the transition's hook sets the status of
-- the order, reserves its lines when it is confirmed and adds to its history. The guard on amounts
-- compares floats and is a parameter; the definition that GetWorkflowDefByCode finds, the id of a new
-- instance, the permissions and the buyer's limit are fields of the request. Apart, Synced, Moved,
-- Patched and Permitted have the proofs.
--
-- Tax models internal/tax: LocalVAT (tax.go), MockExternal (mock.go) and ComputeOrderTax
-- (service.go).
--
-- Configurator models internal/cpq/cpq.go (Configure). An error message is a constructor with the
-- values that the message shows.
--
-- Merchandising models Reorder of internal/merchandising/engine.go.
--
-- Shipping models the rates of internal/shipping: Local (shipping.go) and MockCarrier (mock.go).
--
-- Aging models the report invoiceAging of internal/modules/otc/aging.go. The days overdue, which the
-- code takes from the clock, are a field of the invoices.
--
-- Receivables models invoices and payments of internal/modules/otc (invoices.go, payments.go) over the
-- rows of invoices and payments: Receivables.antt has the tables, the issue of an invoice and the
-- settlement, Pay the handlers payInvoiceByCard, payMyOrder, recordPayment and refundPayment. The
-- gateway is a parameter, and the charges it was asked for are part of the state.
--
-- Returns models the returns of internal/modules/otc/returns.go on rows of returns, their items and
-- credit notes: validateAndCreateReturn with the sum of store/queries/returns.sql, approveReturn,
-- rejectReturn and receiveReturn, which puts the items back into the stock of Inventory. Capped is
-- about how much of an order line can be returned, Received about the credit and the stock. The rows
-- that a request loads by org or customer, the order, its first invoice and the default warehouse, are
-- inputs; the reasons are left out.
--
-- Subscriptions models internal/subscriptions/service.go: MaterializeDue, RunNow and runOne, which
-- puts together Money, Promotions, Tax and Marketplace.Split, on rows of subscriptions, their items
-- and runs, orders, order items and promotions. Dates has AddDate of Go's package time on dates, with
-- as much fuel as the days to carry, since each month takes at least one. The answers of prices,
-- vendors and addresses, and whether the database takes a transaction, are a parameter (World).
-- Tables has the rows, Orders the order that a run makes of its lines, Handlers models
-- internal/modules/subscription/handler.go; Placed, Runs, Rows, Schedule, Totals, Kept, Requests and
-- History have the proofs.
--
-- Billing models internal/billing: billing.go (entitlements, their cache, usage counters) and, in
-- Gate, gate.go. The clock is read where the code reads it, and the handler behind the gate is a
-- parameter. Prelude/Keyed holds the maps whose entries expire, which Tenant uses too.
--
-- RateLimit models internal/server/middleware/ratelimit.go. Tenant models internal/tenant/status.go
-- and the checks of internal/server/middleware (orgstatus.go, permission.go).
--
-- Edi models internal/edi/edi.go: Edi.antt the parser of 850 documents, Writer the encoders.
--
-- Loops are recursions on the lists that the source ranges over; the digits of a number are printed
-- by recursion on a fuel of the number itself, which is at least its count of digits.
-- int64 ids and the int32 priorities and counters are only compared, never added to, so
-- they are unbounded here, as are times, the counts of the limiter and NUMERIC(15,4) columns; the
-- sum of the quota test wraps as an int64. NaN, which NUMERIC takes, is a value of the amounts of
-- payments and of credit limits; a request that gives it for the quantity of an adjustment of stock or
-- of a subscription's item is outside the models, which refuse it as no number. Not modelled are HTTP, JSON and the database itself: a query is the
-- function of the rows that it computes, and a failing query is one error value.
pub mod Prelude
pub mod Money
pub mod Promotions
pub mod PriceRules
pub mod Rebates
pub mod Marketplace
pub mod Inventory
pub mod Workflow
pub mod Subscriptions
pub mod Tax
pub mod Configurator
pub mod Merchandising
pub mod Billing
pub mod RateLimit
pub mod Tenant
pub mod Edi
pub mod Sales
pub mod Shipping
pub mod Aging
pub mod Receivables
pub mod Returns
