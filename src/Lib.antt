-- ===== src/Lib.antt =====
-- The frontend of RankVerse, a site that ranks films, series and people: the logic of its TypeScript
-- libraries and of the components that keep state. Paths are from the repository's root.
--
-- The parts and their files:
-- - Base: Boolean tests and lists on the native numbers, a stable sort (`Array.prototype.sort`), a map
--   in insertion order (`Map`), `filter` and `some`, lists with different keys, and text as a list of UTF-16 units, with trim, split and join.
-- - Battle: "winner stays" battles. Battle/Run is frontend/lib/home-battles.ts (`startRun`,
--   `pickPayload`, `pickInRun`), Battle/WinnerStays the indexes of
--   frontend/components/battle/WinnerStaysBattle.tsx, Battle/PickMark the animation hook of
--   frontend/components/battle/PickMark.tsx, and Battle/Session the component driven by events: a click
--   starts the animation, its timers fire, a request fails, the component mounts or unmounts. The timers
--   are lists of pending callbacks of which any may be resumed next. Battle/Pool is the tally and the
--   standings of frontend/components/tournament/PoolView.tsx (`onPick`, `handleDone`).
-- - Account: what a viewer's session keeps. Account/Retry is the silent token refresh of
--   frontend/lib/api.ts (`fetchWithAuthRetry`, `refreshAccessToken`), Account/Provider the machine of
--   frontend/lib/auth-context.tsx, Account/Gate the modal of frontend/contexts/AuthGateContext.tsx with
--   the action that waits for a login, Account/Marks the toggles of
--   frontend/contexts/FavoritesContext.tsx and frontend/contexts/WatchLaterContext.tsx.
-- - Api: every call of frontend/lib/api.ts, frontend/lib/notifications.ts and
--   frontend/lib/tournament.ts. Api/Net is the network as a record of parameters, Api/Client how a
--   request is sent and its answer read, with the slugs of frontend/lib/list-url.ts; Api/Titles,
--   Lists, Users, Contact, Battles and Notifications are the calls, those of tournaments are
--   Tournament/Calls; Api/Calls and Api/Session make them a sequence that a viewer runs.
-- - Tournament: frontend/lib/tournament.ts, the calls, the rounds' labels and the remaining time.
--   Tournament/Wizard is the draft of frontend/components/tournament/BattleWizard.tsx.
-- - Daily: frontend/lib/daily-battle.ts, the shares of the votes, the countdown and the guest's id.
--   Daily/Battle is the component frontend/components/home/DailyBattle.tsx.
-- - ListPage: components of a list's page. Votes is frontend/components/list-detail/ItemVoteButtons.tsx,
--   Order is frontend/components/ListItemsManager.tsx and Adding is
--   frontend/components/list-detail/AddItemNode.tsx over the changes of Constellation/Detail. Each has
--   the handler up to its request and the answer as two functions, which a page with a server composes.
-- - Bell: frontend/components/NotificationBell.tsx over frontend/lib/notifications.ts; Bell/Poll is its
--   polling. Inbox is frontend/app/notifications/NotificationsView.tsx, read page by page.
-- - Home: frontend/lib/home-lists.ts (Shuffle), frontend/lib/home-data.ts (`clusterByGenre`, which
--   no page calls; Clusters), frontend/lib/hero-graph.ts and frontend/lib/entity-routes.ts (Graph).
-- - Images: frontend/lib/image-proxy.ts with its route frontend/app/tmdb-img/[...path]/route.ts, and, in
--   Images/Address, frontend/lib/tmdb-image-url.ts with `posterSrc` of frontend/lib/tournament.ts.
--   Images/Flights is the loads that callers share while they are on their way.
-- - Labels: frontend/lib/format-number.ts, frontend/lib/title.ts, frontend/lib/genre-labels.ts and
--   frontend/lib/contribution-tier.ts; Labels/Lines is frontend/lib/graph-label.ts.
-- - Constellation: frontend/lib/list-constellation.ts over the records of frontend/lib/types.ts. Link is
--   `battleLink` and `battleOpponents`, Edge is `edgeBetween` and `backlinkFor`, Detail is
--   `withAppendedItem` and `withoutItem`, which a page applies before the server has answered and
--   undoes when it refuses. Anchor is frontend/components/list-detail/ListBattleContext.tsx, the item
--   that the others of a list are to face.
-- - Pagination: frontend/lib/pagination.ts (`pageWindow`).
-- - WatchCsv: frontend/lib/watch-links.ts (`splitCsvLine`, `parseWatchCsv`).
-- - AdminProxy: frontend/lib/admin-proxy.ts (`callerIp`, `forwardToAdmin`).
-- - AdminUsers: frontend/app/admin/(protected)/users/AdminUsersManager.tsx, with the bound of bulk.ts
--   beside it. Loading reads the rows, Selection has the ticks and the actions on all of them.
-- - Sitemap: frontend/lib/sitemap.ts, the index of frontend/app/sitemap.xml/route.ts and, in
--   Sitemap/Files, the files of frontend/app/sitemaps/[file]/route.ts.
--
-- How parts interact: every call of Api with a token goes through the refresh of Account/Retry,
-- whose listeners are events of Account/Provider; a toggle of Account/Marks that a guest asks for
-- waits in Account/Gate; the sitemap's files are read by calls of Api; the addresses of posters
-- lead to the route of Images. The battle component and the home page's run are two implementations
-- of one game; edges, backlinks and battle links read the same items; the CSV import and the
-- sitemap use the labels' digits; the admin proxy's reply depends on the address that `callerIp`
-- picks.
--
-- Parameters: `localeCompare`, `encodeURIComponent`, `URLSearchParams`, `fetch` with its responses
-- and its time limit, the server's state, parsed JSON and the fields that are read of it, the
-- backend's and the site's addresses, random draws, `toLocaleString`, `toISOString`, the disk of
-- the image cache and the mirrors. A fetch that throws is `none`, as are `null`, `undefined` and an
-- index out of range. Where the code only tests a token, the model has a Boolean, false for an empty
-- one. Calls run one after another; answers that overlap are events of the machines
-- in Account, AdminUsers, Battle/Session, Daily/Battle, ListPage/Votes, Bell/Poll and Images/Flights.
--
-- Bounds and fuel: numbers are natural, and what the code counts stays far below 2^53. Loops are
-- recursion on their lists or on the count of their rounds; the decimal text of `n` has `n + 1`
-- rounds, more than its digits; the next anchor has as many rounds as the list has items. A score
-- with halves is counted in halves, a deadline in milliseconds. Text is compared and cut by units,
-- `toLowerCase` is that of ASCII letters.
--
-- Not modelled: markup, styling, the canvas of the story card, timers' durations, float arithmetic,
-- the Python backend and its jobs, and the libraries and pages that the list above does not name.
pub mod Base
pub mod Battle
pub mod Labels
pub mod Constellation
pub mod Pagination
pub mod WatchCsv
pub mod AdminProxy
pub mod AdminUsers
pub mod Sitemap
pub mod Account
pub mod Api
pub mod Tournament
pub mod Daily
pub mod Images
pub mod ListPage
pub mod Bell
pub mod Inbox
pub mod Home
