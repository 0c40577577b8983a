-- ===== src/Lib.antt =====
-- The browser part of a VPN service with a shared bill: accounts with a balance, tariff plans
-- that are charged day by day, top-ups by YooMoney, and an administrator's part. This library
-- models the logic of frontend/src: what the pages compute from the data of the server, and how
-- their state changes with what is clicked and with the ends of requests.
--
-- - Prelude holds the shared types, tests and lemmas: Lists, Int (signed integers over the
--   native numbers), Sorting (Array.prototype.sort, stable, by the sign of a comparator), Dict
--   (a Map with text keys, in the order of insertion). Text is text as UTF-16 code units with
--   trim, includes and the like.
-- - Locale is the record of what the pages take from Intl, localeCompare and letter case:
--   parameters of the model. Money reads amounts as exact decimals, adds them up in kopecks and
--   prints them (frontend/src/shared/lib/money); Money.Printed reads again what it prints.
-- - Entities are the records of frontend/src/entities/*/types.ts.
-- - Api is apiRequest of frontend/src/shared/api/client.ts, from what the network gave; its
--   results are what every request of the pages ends with. Session is the store of
--   frontend/src/entities/user/userStore.ts; Endpoints the requests of
--   frontend/src/entities/*/api.ts with the keys of the query cache, Query the four cases of a
--   page whose data comes; Routes the guards of frontend/src/pages/index.tsx over that store's
--   state.
-- - History models the three windows that group entries by month: Charges, TopUps
--   (frontend/src/entities/user/ui) and BillingRuns (TariffPlanBillingHistoryModal), over
--   Monthly (frontend/src/shared/ui/MonthlyHistory) and Grouping; Windows is what each window
--   shows with its summary; Conservation, Windows.Empty and Labels hold the laws, the last
--   against the rule of Plural.
-- - Ui models DataTable, FieldSelect, Modal and Button of frontend/src/shared/ui as state
--   machines over clicks and keys, and Confirmation the two windows that ask before a deletion
--   (DeleteUserConfirmation, DeleteTariffPlanConfirmation). Timers is setTimeout and
--   clearTimeout for a value that a timer resets, and Recent what such a value shows.
-- - Password is frontend/src/shared/lib/password/generatePassword.ts over a stream of random
--   draws.
-- - Users is frontend/src/pages/UsersPage: Page the state machine, Form the form with the rules
--   of its Fields and the password Generated for it, TelegramId the law of its validation,
--   StatusHistory the texts of a status change, Columns the comparators of the table,
--   VpnProfiles the tooltip of an account's profiles, Safety the laws of the page.
-- - TariffPlans is frontend/src/entities/tariffPlan/utils.ts (Calendar, with DayNumber and
--   Printed for the day that a shift leads to, Charge, Schedule) and
--   frontend/src/pages/TariffPlansPage (Page, Form with its texts and rules in View).
-- - Account holds the forms about a password
--   (frontend/src/entities/user/ui/ChangePasswordModal, the reset form of the users page in
--   Reset, frontend/src/pages/LoginPage, whose fields and view are in Account.Login), Overview
--   is frontend/src/pages/OverviewPage: the top-up window, the page itself (Page), the rule of
--   its amount (Amount), the form of a checkout (Checkout) and the recommended clients
--   (Clients, with the list in Links).
-- - Vpn is the panel of frontend/src/pages/OverviewPage/components/VpnAccessPanel: Panel its
--   state machine with View, Tabs, Connections, CopyButton and Clipboard its components;
--   Panel.Laws and Panel.Keys hold the theorems.
-- - Shell is frontend/src/widgets/AppShell with the menu of the user (Menu), the links
--   (Header), and the theme of frontend/src/app/providers/withTheme (Theme).
-- - RunE2e is frontend/scripts/run-e2e.mjs, the script that runs the browser tests, in a monad
--   of state and errors; RunE2e.Laws what it promises.
-- - TopUps is the list of payments of frontend/src/pages/TopUpsPage, Payment the page of
--   frontend/src/pages/PaymentResultPage that waits for one payment, with its card in Result.
--   Tests evaluates the definitions and applies the theorems at concrete inputs.
--
-- A request is not modelled as a promise: the event that ends it carries its result, so that
-- events in any order are the interleavings. React keeps a component's state between events; a
-- step function takes the state that the handler sees.
--
-- Fuel: Routes.settle follows redirects on fuel, and three rounds are enough for every address;
-- Password.fill runs its loop on as many rounds as the password has characters, which its
-- length theorem shows to be enough; Text.decimal divides by ten as many times as the number is
-- large.
--
-- Exact decimals stand for binary floating point in sums of kopecks and in the charge of a day,
-- which is the same for amounts below 2 ^ 46 roubles with two decimals, save where a division
-- falls on a half exactly. Which number the browser reads from the text of a field is a
-- parameter of the rules of the forms. Years below 100 are those of the twentieth century, as
-- Date.UTC takes them; the days before the year 0 are out of the model, and a date whose parts
-- are not numbers prints as NaN.
--
-- Not modelled: the server (backend), markup and styles, the query cache, the form library
-- beyond the rules of a field, and the cleanup of timers when a component is taken away.
pub mod Prelude
pub mod Text
pub mod Money
pub mod Locale
pub mod Entities
pub mod Plural
pub mod History
pub mod Timers
pub mod Vpn
pub mod Ui
pub mod Shell
pub mod Api
pub mod Query
pub mod Endpoints
pub mod Session
pub mod Routes
pub mod RunE2e
pub mod TariffPlans
pub mod Password
pub mod Payment
pub mod TopUps
pub mod Users
pub mod Account
pub mod Overview
pub mod Tests
