-- ===== src/Lib.antt =====
-- A model of report_api, the Go service that reports advertising conversions, and its theorems.
--
-- The service takes two Excel workbooks per request, a data source and a click table, and sends one
-- HTTP callback for each record that the click table asks for. service/juliang.go, ks.go, gdt.go,
-- uc.go and honor.go are five copies of this flow that differ in the records' columns, in the key by
-- which records are grouped and in the callback's URL. The other services ask JD and Taobao for orders,
-- links and reports, page by page or row by row of an uploaded workbook, and reply with a workbook.
--
-- Which file models what:
--   Prelude            names and lemmas that all files share.
--   Go, Go/*           what the code uses of Go: errors and panics (Result), text and its UTF-8
--                      (Text), TrimSpace, ReplaceAll, Atoi, base64, MD5, sorting, url.Values and Encode.
--   Excel, Excel/*     the part of the readers that opens a sheet, finds a column and reads a cell, the
--                      sheets that are written (Sheet), and the batches over a workbook (Batch).
--   Callback           the flow: the click table (Click), the map of records (Group), one request
--                      (Http), the loop with its counters (Process) and the handlers that take two
--                      workbooks (Upload) or one (Upload/Single).
--   Channel/Juliang    service/juliang.go: readDataSourceExcel is read_juliang_data_source, sendCallback
--                      is juliang_callback_url with Http.get, processExcelAndCallback is
--                      process_juliang_excel_and_callback, UploadExcelFiles is
--                      upload_juliang_excel_files.
--   Channel/Ks, Gdt, Uc, Honor   the same for service/ks.go, gdt.go, uc.go and honor.go.
--   Sign               generateJdSign of service/jd_order.go, generateJdShSign of jd_sh.go and generateSign
--                      of taobao_activity.go.
--   Order              service/jd_order.go: GetJdOrder and GetJdBonusOrder (Request), the loop over a
--                      period (Windows), the loop over pages (Pages), a page of orders
--                      (Plain: fetchJdOrdersPage is fetch_jd_orders_page) and of bonus orders (Bonus:
--                      fetchJdBonusOrdersPage is fetch_page), both exports (Export), jdHttpGet (Client).
--   Promotion          service/jd_sh.go: fetchJdShPromotion is fetch_jd_sh_promotion, with its two
--                      handlers (Handler, Upload) and processJdShExcel (Batch).
--   Activity           service/taobao_activity.go: callTaobaoActivityAPI is call_taobao_activity_api,
--                      with parseExtInfo (ExtInfo), processExcelAndQuery (Batch) and GetActivityReport
--                      (Handler).
--   Cps                common/topsdk-go: NewClient is new_client, DoJson is do_json, the three functions
--                      QueryAllPaged… are query_all_paged; service/cps_order.go and cps_user.go (Orders) and
--                      cps_income.go (Incomes); DoJsonBatch of batch.go (Batch); the options of
--                      NewClient (Options).
--   Region             common/region/ipparse.go: load_ips, LoadIps_ini and Get_Region_Id (Load), ip_search
--                      over a table of segments, in order or not (Search), Area_Init with its table
--                      and Get_Area_Name (Area), and the order of addresses (Go/Text/Order).
--   Common             the paddings of common/common.go and core/aec.go (Padding), AESEncodeStr,
--                      AESDecodeStr and EncryptAES128ECB (Aes), StrMd5 and Generate_uid (Ids),
--                      AutoArriveParams, MapKeys and the other helpers of common/common.go (Links), the
--                      hashes of core/fnv.go (Fnv), the pool of connections of common/pool/pool.go
--                      (Pool), PushRedisAll and Get of core/cache/DataCache.go with the PushRedisAll of
--                      core/DataCache.go (Cache) and the Get of this over its local list (Cache/Local),
--                      SendDataMap of common/rabbitmq/producer.go (Rabbit), common/uapar/uapar.go
--                      (Agents), and the sharded servers of common/redis/crc_pool.go (Shards): its
--                      methods under their names, except that Expireat, Expire, Incr and Decr are
--                      expire_at, expire_in, incr_key and decr_key.
--   Server             core/httpServer.go: ReadAllOptimized, HttpGet, HttpPost and Fast_Http (Http), and
--                      parseMethodCall (Names); the mappings of handler/ and the loop of MainControl in
--                      control/main_control.go (Routes); the sizes of requests (Sizes), PromMiddleware of
--                      common/ginporm/middleware.go (Metrics), core/waitgroup.go (Goroutines) and
--                      LoadConfig of core/loadConfig.go (Config).
--   Logger             common/logger/file/loglib.go: LogFile, the rounds of Start_Log and Write_Log;
--                      how the rounds empty the queue (Rounds); inputTask, countLines and LogJson
--                      (Tasks).
--   Examples           small runs, and the theorems with conditions at a concrete input.
--
-- How the code is rendered. A string is the list of its code points (Str), or of its bytes where
-- bytes are sent or decoded (Bytes). The column index -1 is `none`. An error is the value `err`, a panic
-- the value `panic`; gin.Recovery answers a panic with status 500, the reply `fault`. A map is an
-- association list with the newest key last; the order in which a loop over the handlers' map meets its
-- entries is a parameter. What a request changes (the requests sent, the files
-- saved) is passed explicitly: a Log and a Disk.
--
-- Parameters stand for code that is not here: the reply to a request and the clock are functions of
-- the requests sent before (Env), opening a workbook and the errors of saving a file are functions of
-- the content and the path (Files), and the parsed form is an argument of the handler. For the reports
-- of JD and Taobao, JSON, a reply's body, time.Parse, Format and SaveAs are functions too (Service,
-- PlainService, Network, Library), and for the pool, what a new connection gives (Connect) and whether the
-- broker has closed one. A written workbook is the list of the calls of SetCellValue.
-- AES and its CBC mode, base64, gzip, net.ParseIP and the CRC-32 are functions; a Redis server behind the
-- shards is a function of a command and of the value of its key; the body of a reply is the list of its reads.
-- The RabbitMQ client is Amqp,
-- the list of groupcache is LruCache, and the host of the logger with its database is System.
--
-- Bounds. Recursion follows the rows of a table, the records of a list or the code points of a text.
-- The loops over pages have fuel for 100 pages, where the code stops too; the loops over a period have
-- fuel for its length in milliseconds (bonus orders) or nanoseconds (orders), of which each window takes
-- at least one. The period's ends are within 10^14 milliseconds of 1970 (timestamps have at most 13
-- characters, dates four-digit years), so the sums of an int64 do not wrap there.
-- The loop over pages of the Taobao client has no bound, so its handlers take the fuel as an argument.
-- A round of AutoLink has fuel for MinOpen passes, and each pass raises the index. Get of the pool, whose
-- recursion may not end, takes its fuel as an argument, and so does SendDataMap, which calls it, and Wait
-- of core/waitgroup.go, which only calls itself. The search by address takes its fuel too, and ip_search
-- gives it the number of segments and one more.
-- The loop of EncryptAES128ECB has fuel for the length of its text, of which a round takes 16 bytes.
--
-- Not modelled: the start of the process and its signals, the file of the configuration, the
-- observation of the metrics, the output of logs to Kafka and MySQL, the expiry of cached entries,
-- the LRU list of core/cache/DataCache.go and the shared flight of concurrent calls, the
-- connections of the RabbitMQ client, and the copy of go-simplejson; of service/jd_order.go the
-- settings of the HTTP client. A date that UnixNano cannot show is left out, and so are the pauses
-- between requests. Of common/common.go, StrSha256, Generate_UUID and the compression with zstd are
-- left out, which only call libraries. Of core/httpServer.go, the calls of the metrics and the
-- settings of the clients are left out. The router of gin, with its static files, is represented by
-- the calls made of it. Of common/pool/pool.go, the lock is left out. Printing to the standard
-- output is left out of the handlers.
pub mod Prelude
pub mod Go
pub mod Excel
pub mod Callback
pub mod Channel
pub mod Sign
pub mod Promotion
pub mod Activity
pub mod Order
pub mod Cps
pub mod Region
pub mod Common
pub mod Server
pub mod Logger
pub mod Examples
